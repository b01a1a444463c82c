-- ===== src/Console/Server/Streams.antt =====
-- What an attached client is sent.
use vkage.Base.{
  ℕ, ◌+◌, ◌<◌, ◌≡◌, refl, sym, ap, ◌∙◌, Bool, true, false, List, [], ◌∷◌, ◌++◌, append-nil,
  append_assoc, arith, Bytes, length, All, Bool-cases, inl, inr, ◌==◌, ltb, ◌||◌, if◌then◌else◌,
}
use mathlib.Core.List.{flatten}
use vkage.Console.Server.{channel_size, Client, output_clients, deliver_client, deliver, detach}

-- What was written to the client, and what waits in its channel.
abbrev pub stream : Client → Bytes
stream c = c.sent ++ flatten c.queue

-- If `c` is the client of the channel and its connection is open, `x` is its stream.
abbrev pub Streams : ℕ → Bytes → Client → Type 0
Streams ch x c = c.channel ≡ ch → c.conn_open ≡ true → stream c ≡ x

flatten-append : (q : List Bytes) (p : Bytes) → flatten (q ++ p ∷ []) ≡ flatten q ++ p
unfolding flatten
flatten-append [] p = append-nil p
flatten-append (x ∷ q) p =
    ap (λ (r : Bytes). x ++ r) (flatten-append q p) ∙ sym (append_assoc x (flatten q) p)

pub output_clients-Streams :
    (ch : ℕ) (x p : Bytes) (cs : List Client)
    → All (Streams ch x) cs
    → All (Streams ch (x ++ p)) (output_clients p cs)
unfolding output_clients
output_clients-Streams ch x p [] h = tt
output_clients-Streams ch x p (c ∷ cs) (hc, hs) =
    let rest = output_clients-Streams ch x p cs hs in
    elim (Bool-cases (ltb (length c.queue) channel_size)) [
      | inr full ↦ rw full rest
      | inl room ↦ rw room (
        (λ e o.
            ap (λ (r : Bytes). c.sent ++ r) (flatten-append c.queue p)
            ∙ sym (append_assoc c.sent (flatten c.queue) p)
            ∙ ap (λ (r : Bytes). r ++ p) (hc e o)),
        rest,
      )
    ]

deliver_client-Streams :
    (ch : ℕ) (x : Bytes) (fails : Bool) (q : List Bytes) (c : Client)
    → c.queue ≡ q
    → Streams ch x c
    → Streams ch x (deliver_client fails q c)
unfolding deliver_client flatten
deliver_client-Streams ch x fails [] c e h = h
deliver_client-Streams ch x fails (p ∷ q) c e h =
    elim (Bool-cases (fails || (if c.conn_open then false else true))) [
      | inl bad ↦ rw bad (λ k o. cc)
      | inr good ↦ rw good (λ k o.
          append_assoc c.sent p (flatten q)
          ∙ ap (λ (r : Bytes). c.sent ++ r) (sym (ap flatten e))
          ∙ h k o)
    ]

pub deliver-Streams :
    (ch : ℕ) (x : Bytes) (d : ℕ) (fails : Bool) (cs : List Client)
    → All (Streams ch x) cs
    → All (Streams ch x) (deliver d fails cs)
unfolding deliver
deliver-Streams ch x d fails [] h = tt
deliver-Streams ch x d fails (c ∷ cs) (hc, hs) = elim (Bool-cases (c.channel == d)) [
  | inl e ↦ rw e (deliver_client-Streams ch x fails c.queue c refl hc, hs)
  | inr e ↦ rw e (hc, deliver-Streams ch x d fails cs hs)
]

pub detach-Streams :
    (ch : ℕ) (x : Bytes) (d : ℕ) (cs : List Client)
    → All (Streams ch x) cs
    → All (Streams ch x) (detach d cs)
unfolding detach
detach-Streams ch x d [] h = tt
detach-Streams ch x d (c ∷ cs) (hc, hs) = elim (Bool-cases (c.channel == d)) [
  | inl e ↦ rw e hs
  | inr e ↦ rw e (hc, detach-Streams ch x d cs hs)
]

module _ (n : ℕ) where
  abbrev pub Below : Client → Type 0
  Below c = c.channel < n

  pub output_clients-Below :
      (p : Bytes) (cs : List Client) → All Below cs → All Below (output_clients p cs)
  unfolding output_clients
  output_clients-Below p [] h = tt
  output_clients-Below p (c ∷ cs) (hc, hs) =
      let rest = output_clients-Below p cs hs in
      elim (Bool-cases (ltb (length c.queue) channel_size)) [
        | inl room ↦ rw room (hc, rest)
        | inr full ↦ rw full rest
      ]

  deliver_client-Below :
      (fails : Bool) (q : List Bytes) (c : Client) → Below c → Below (deliver_client fails q c)
  unfolding deliver_client
  deliver_client-Below fails [] c h = h
  deliver_client-Below fails (p ∷ q) c h = ground arith

  pub deliver-Below :
      (d : ℕ) (fails : Bool) (cs : List Client) → All Below cs → All Below (deliver d fails cs)
  unfolding deliver
  deliver-Below d fails [] h = tt
  deliver-Below d fails (c ∷ cs) (hc, hs) = elim (Bool-cases (c.channel == d)) [
    | inl e ↦ rw e (deliver_client-Below fails c.queue c hc, hs)
    | inr e ↦ rw e (hc, deliver-Below d fails cs hs)
  ]

  pub detach-Below : (d : ℕ) (cs : List Client) → All Below cs → All Below (detach d cs)
  unfolding detach
  detach-Below d [] h = tt
  detach-Below d (c ∷ cs) (hc, hs) = elim (Bool-cases (c.channel == d)) [
    | inl e ↦ rw e hs
    | inr e ↦ rw e (hc, detach-Below d cs hs)
  ]

pub Below-suc : (n : ℕ) (cs : List Client) → All (Below n) cs → All (Below (n + 1)) cs
Below-suc n [] h = tt
Below-suc n (c ∷ cs) (hc, hs) = (omega arith, Below-suc n cs hs)
