-- ===== src/Stomp/Header/Lists.antt =====
-- The operations on lists of headers against plain lists.
use mathlib.Core.List.{reverse, reverse-cons, reverse-reverse}
use grinbox.Prelude.{
  ℕ, zero, suc, ◌≡◌, refl, ap, ◌∙◌, some, List, [], ◌∷◌, ◌++◌, append_assoc, append-nil, arith,
  length, ◌≤◌, length-append,
}
use grinbox.Stomp.Header.{Header, HeaderList, push, pop, drain_loop, drain, concat_loop, concat}

pop-push : (hs : HeaderList) (h : Header) → pop (push hs h) ≡ (some h, hs)
unfolding pop
pop-push [] h = refl
pop-push (k ∷ []) h = refl
pop-push (k ∷ l ∷ hs) h = rw (pop-push (l ∷ hs) h)

concat_loop-push :
    (rounds : ℕ) (headers other : HeaderList) (k : Header)
    → concat_loop (suc rounds) headers (push other k) ≡ concat_loop rounds (push headers k) other
unfolding concat_loop
concat_loop-push rounds headers other k = ground (arith, pop-push other k)

drain_loop-push :
    (rounds : ℕ) (headers : HeaderList) (sunk : List Header) (k : Header)
    → drain_loop (suc rounds) (push headers k) sunk ≡ drain_loop rounds headers (push sunk k)
unfolding drain_loop
drain_loop-push rounds headers sunk k = ground (arith, pop-push headers k)

concat_loop_lem :
    (rounds : ℕ) (headers other : HeaderList)
    → length other ≤ rounds
    → concat_loop (suc rounds) headers (reverse other) ≡ (headers ++ other, [])
unfolding concat_loop
concat_loop_lem rounds headers [] h = rw append-nil
concat_loop_lem zero headers (k ∷ other) h = absurd (omega arith)
concat_loop_lem (suc rounds) headers (k ∷ other) h = rw reverse-cons (
    concat_loop-push (suc rounds) headers (reverse other) k
    ∙ concat_loop_lem rounds (push headers k) other (omega arith)
    ∙ ap (λ (l : HeaderList). (l, [])) (append_assoc headers (k ∷ []) other))

drain_loop_lem :
    (rounds : ℕ) (headers : HeaderList) (sunk : List Header)
    → length headers ≤ rounds
    → drain_loop (suc rounds) (reverse headers) sunk ≡ (sunk ++ headers, [])
unfolding drain_loop
drain_loop_lem rounds [] sunk h = rw append-nil
drain_loop_lem zero (k ∷ headers) sunk h = absurd (omega arith)
drain_loop_lem (suc rounds) (k ∷ headers) sunk h = rw reverse-cons (
    drain_loop-push (suc rounds) (reverse headers) sunk k
    ∙ drain_loop_lem rounds headers (push sunk k) (omega arith)
    ∙ ap (λ (l : HeaderList). (l, [])) (append_assoc sunk (k ∷ []) headers))

-- HeaderList::concat appends the other list in its order, and leaves it empty.
pub concat_lem : (headers other : HeaderList) → concat headers other ≡ (headers ++ other, [])
unfolding concat
concat_lem headers other = concat_loop_lem (length other) headers other (omega arith)

length-reverse : (hs : HeaderList) → length (reverse hs) ≡ length hs
length-reverse [] = refl
length-reverse (h ∷ hs) =
    rw reverse-cons (omega (arith, length-append (reverse hs) (h ∷ []), length-reverse hs))

drain-reverse : (hs : HeaderList) → drain (reverse hs) ≡ (hs, [])
unfolding drain
drain-reverse hs = drain_loop_lem (length (reverse hs)) hs [] (omega (arith, length-reverse hs))

-- HeaderList::drain hands the headers to the sink from the last to the first, and leaves none.
pub drain_lem : (headers : HeaderList) → drain headers ≡ (reverse headers, [])
drain_lem headers = rw reverse-reverse at (drain-reverse (reverse headers))
