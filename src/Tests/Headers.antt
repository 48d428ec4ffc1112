-- ===== src/Tests/Headers.antt =====
-- Runs of the operations of src/broker/stomp/header.rs and src/broker/stomp/connection.rs.
use grinbox.Prelude.{some, [], ◌≡◌, refl, max, ◌∷◌, ◌++◌, arith}
use grinbox.Prelude.Text.{codes, split, text_eq}
use grinbox.Prelude.Text.Utf8.{valid_utf8}
use grinbox.Stomp.Header.{get}
use grinbox.Stomp.Header.Versions.{
  stomp_v1_0, stomp_v1_2, parse_version, parse_versions, get_accept_version,
}
use grinbox.Utils.Hex.{trim, trim_start, trim_reversed}
use grinbox.Stomp.Header.Names.{accept_version, standard, name_eq}
use grinbox.Stomp.Header.Values.{
  ascii_clusters, IsSegmentation, IsSafe, encode_value, decode_value, from_str, encode_value-IsSafe,
}
use grinbox.Stomp.Connection.{select_heartbeat}
use grinbox.Stomp.Connection.Negotiation.{negotiated, select_heartbeat_swapped}
use grinbox.Stomp.Codec.Outcomes.{ready}
use grinbox.Stomp.Codec.{parse_header}
use grinbox.Stomp.Codec.Malformed.{parse_header_truncated}

abbrev pub ascii_segmentation : IsSegmentation ascii_clusters
ascii_segmentation = record { ascii = λ s h. refl }

encode_value-IsSafe_example : IsSafe (encode_value ascii_clusters (codes "a:b"))
encode_value-IsSafe_example =
    encode_value-IsSafe ascii_clusters (codes "a:b") ascii_segmentation (ground arith)
      (ground arith)

select_heartbeat_swapped_example :
    (select_heartbeat 10000 10000 0 5000 ≡ (0, max 10000 5000))
    × (negotiated 10000 10000 0 5000 ≡ (max 10000 5000, 0))
select_heartbeat_swapped_example =
    select_heartbeat_swapped 10000 10000 5000 (omega arith) (omega arith) (omega arith)

parse_header_truncated_example :
    parse_header ascii_clusters (codes "from" ++ b':' ∷ (codes "a@b" ++ b':' ∷ codes "80"))
    ≡ ready (record {
      name = from_str ascii_clusters (codes "from");
      value = decode_value (codes "a@b");
    })
unfolding valid_utf8
parse_header_truncated_example =
    parse_header_truncated ascii_clusters (codes "from") (codes "a@b") (codes "80") (ground arith)
      (ground arith) refl

-- Of the accepted versions, those that are unknown are dropped.
versions_run :
    get_accept_version (record { name = standard accept_version; value = codes "1.0, 1.2,9" } ∷ [])
    ≡ some (stomp_v1_0 ∷ stomp_v1_2 ∷ [])
unfolding get_accept_version get name_eq split parse_versions parse_version trim trim_start
    trim_reversed text_eq
versions_run = refl
