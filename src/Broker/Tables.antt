-- ===== src/Broker/Tables.antt =====
-- Tables that are inverse to the table of consumers of src/broker/rabbit_broker.rs.
use grinbox.Prelude.{◌≡◌, ◌↔◌, Option, none, some, arith}
use grinbox.Prelude.Text.{Text, text_eq_iff}
use grinbox.Prelude.Assoc.{Assoc, lookup, insert, remove, lookup-insert, lookup-remove}

module _ {ℓ} {V : Type ℓ} (key : V → Text) where
  abbrev pub key_of : Option V → Option Text
  key_of none = none
  key_of (some v) = some (key v)

  -- The table sends a key to an id exactly when the value of that id has the key.
  pub record IsInverse (table : Assoc Text) (values : Assoc V) : Type ℓ where
    pub at : (k i : Text) → (lookup k table ≡ some i) ↔ (key_of (lookup i values) ≡ some k)

  pub IsInverse-remove :
      (table : Assoc Text) (values : Assoc V) (i : Text) (v : V)
      → IsInverse table values
      → lookup i values ≡ some v
      → IsInverse (remove (key v) table) (remove i values)
  IsInverse-remove table values i v inv e = record {
    at = λ k j. simp lookup-remove (
        ground (
          arith,
          inv.at k j,
          inv.at (key v) i,
          inv.at (key v) j,
          inv.at k i,
          text_eq_iff (key v) k,
          text_eq_iff i j,
        ));
  }

  pub IsInverse-insert :
      (table : Assoc Text) (values : Assoc V) (i : Text) (v : V)
      → IsInverse table values
      → lookup i values ≡ none
      → lookup (key v) table ≡ none
      → IsInverse (insert (key v) i table) (insert i v values)
  IsInverse-insert table values i v inv e f = record {
    at = λ k j. simp lookup-insert (
        ground (
          arith,
          inv.at k j,
          inv.at (key v) i,
          inv.at (key v) j,
          inv.at k i,
          text_eq_iff (key v) k,
          text_eq_iff i j,
        ));
  }
