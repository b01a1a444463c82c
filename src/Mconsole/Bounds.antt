-- ===== src/Mconsole/Bounds.antt =====
-- How much of a guest's replies `Request` keeps.
use vkage.Base.{
  ℕ, ◌≤◌, inl, inr, Bool, true, false, List, [], ◌∷◌, ◌++◌, Option, none, some, Bytes, length, ◌==◌,
  ltb, leb, arith, Bool-cases,
}
use vkage.Mconsole.Space.{length-trim_space}
use vkage.Mconsole.{
  Reply, read_reply, Read, fails, datagram, Answer, refused, answered, finished, round, replies,
  connected, request, max_data, max_reply,
}

module _ {E : Type 0} where
  abbrev pub IsBounded : Answer E → Type 0
  IsBounded (refused s) = length s ≤ max_reply
  IsBounded (answered s) = length s ≤ max_reply
  IsBounded _ = Unit

finished-IsBounded :
    (E : Type 0) (error : ℕ) (out : Bytes)
    → length out ≤ max_reply
    → IsBounded {E = E} (finished error out)
unfolding finished
finished-IsBounded E error out l = elim (Bool-cases (error == 0)) [
  | inl z ↦ rw z l
  | inr z ↦ rw z (omega (arith, length-trim_space out, l))
]

module _ {E : Type 0} where
  round-IsBounded :
      (first : Bool) (error : ℕ) (out : Bytes) (o : Option Reply) (again : ℕ → Bytes → Answer E)
      → ((x : ℕ) (y : Bytes) → IsBounded (again x y))
      → IsBounded (round first error out o again)
  unfolding round
  round-IsBounded first error out none again h = tt
  round-IsBounded first error out (some r) again h =
      elim (Bool-cases (ltb max_reply (length (out ++ r.text)))) [
        | inl long ↦ rw long tt
        | inr fits ↦ elim (Bool-cases (r.more == 0)) [
          | inl z ↦ rw (fits, z) (finished-IsBounded E _ (out ++ r.text) (ground arith))
          | inr z ↦ rw (fits, z) (h _ (out ++ r.text))
        ]
      ]

  replies-IsBounded :
      (first : Bool) (error : ℕ) (out : Bytes) (reads : List (Read E))
      → IsBounded (replies first error out reads)
  unfolding replies
  replies-IsBounded first error out [] = tt
  replies-IsBounded first error out (fails e ∷ reads) = tt
  replies-IsBounded first error out (datagram d ∷ reads) =
      round-IsBounded first error out (read_reply d) (λ x y. replies false x y reads)
        (λ x y. replies-IsBounded false x y reads)

  connected-IsBounded :
      (dialled written : Option E) (reads : List (Read E))
      → IsBounded (connected dialled written reads)
  unfolding connected
  connected-IsBounded (some e) written reads = tt
  connected-IsBounded none (some e) reads = tt
  connected-IsBounded none none reads = replies-IsBounded true 0 [] reads

  -- Whatever the guest sends, and however the socket fails, the text that `Request` returns as an
  -- answer or a refusal has at most 1 MiB.
  pub request-IsBounded :
      (cmd : Bytes) (dialled written : Option E) (reads : List (Read E))
      → IsBounded (request cmd dialled written reads)
  unfolding request
  request-IsBounded cmd dialled written reads = elim (Bool-cases (leb max_data (length cmd))) [
    | inl long ↦ rw long tt
    | inr short ↦ rw short (connected-IsBounded dialled written reads)
  ]
