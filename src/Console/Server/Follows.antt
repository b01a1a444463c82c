-- ===== src/Console/Server/Follows.antt =====
-- Every client that is attached follows the console from its attach on.
use vkage.Base.{
  ℕ, ◌+◌, ◌<◌, ◌≡◌, refl, Bool, List, [], ◌∷◌, ◌++◌, append-nil, append_assoc, arith, Bytes, All,
  All-append, Bool-cases, inl, inr,
}
use vkage.Console.Server.{
  ConsoleServer, output, resize, register, attach, Event, output_event, attach_event, deliver_event,
  input_event, detach_event, close_event, is_attached, step, run, produced, uint16,
}
use vkage.Console.Server.Streams.{
  Streams, output_clients-Streams, deliver-Streams, detach-Streams, Below, output_clients-Below,
  deliver-Below, detach-Below, Below-suc,
}

-- The clients of the server are numbered below its counter, and the channel, which is made, follows
-- a stream.
pub record Follows (ch : ℕ) (x : Bytes) (s : ConsoleServer) : Type 0 where
  pub made : ch < s.next
  pub numbered : All (Below s.next) s.clients
  pub streams : All (Streams ch x) s.clients

pub resize_keeps :
    (fails : Bool) (s : ConsoleServer) (r c : ℕ)
    → ((resize fails s r c).clients ≡ s.clients)
      × ((resize fails s r c).next ≡ s.next)
      × ((resize fails s r c).recent ≡ s.recent)
unfolding resize
resize_keeps fails s r c = ground arith

-- A change that leaves the clients and the counter alone.
same-Follows :
    (ch : ℕ) (x : Bytes) (s t : ConsoleServer)
    → t.clients ≡ s.clients
    → t.next ≡ s.next
    → Follows ch x s
    → Follows ch x t
same-Follows ch x s t e n f = record {
  made = rw n f.made;
  numbered = rw (e, n) f.numbered;
  streams = rw e f.streams;
}

register-Follows :
    (ch : ℕ) (x : Bytes) (s : ConsoleServer) → Follows ch x s → Follows ch x (register s)
unfolding register
register-Follows ch x s f = record {
  made = omega (arith, f.made);
  numbered =
      All-append (Below (s.next + 1)) s.clients _ (Below-suc s.next s.clients f.numbered)
        (omega arith, tt);
  streams =
      All-append (Streams ch x) s.clients _ f.streams
        ((λ e o. absurd (omega (arith, f.made, e))), tt);
}

attach-Follows :
    (ch : ℕ) (x : Bytes) (fails : Bool) (s : ConsoleServer) (sent : Bytes)
    → Follows ch x s
    → Follows ch x (attach fails s sent)
unfolding attach
attach-Follows ch x fails s (r1 ∷ r0 ∷ c1 ∷ c0 ∷ rest) f =
    let (same, next, recent) = resize_keeps fails s (uint16 r1 r0) (uint16 c1 c0) in
    register-Follows ch x (resize fails s (uint16 r1 r0) (uint16 c1 c0))
      (same-Follows ch x s _ same next f)
attach-Follows ch x fails s _ f = f

step-Follows :
    (ch : ℕ) (x : Bytes) (s : ConsoleServer) (e : Event)
    → Follows ch x s
    → Follows ch (x ++ produced (e ∷ [])) (step s e)
unfolding step output produced
step-Follows ch x s (output_event p) f = record {
  made = f.made;
  numbered = output_clients-Below s.next p s.clients f.numbered;
  streams = rw append-nil (output_clients-Streams ch x p s.clients f.streams);
}
step-Follows ch x s (attach_event fails sent) f = rw append-nil (attach-Follows ch x fails s sent f)
step-Follows ch x s (deliver_event d fails) f = rw append-nil (record {
  made = f.made;
  numbered = deliver-Below s.next d fails s.clients f.numbered;
  streams = deliver-Streams ch x d fails s.clients f.streams;
})
step-Follows ch x s (input_event d p) f =
    rw append-nil (elim (Bool-cases (is_attached d s.clients)) [
      | inl yes' ↦ rw yes' (same-Follows ch x s (record s { pty = s.pty ++ p }) refl refl f)
      | inr no' ↦ rw no' f
    ])
step-Follows ch x s (detach_event d) f = rw append-nil (record {
  made = f.made;
  numbered = detach-Below s.next d s.clients f.numbered;
  streams = detach-Streams ch x d s.clients f.streams;
})
step-Follows ch x s close_event f =
    rw append-nil (record { made = f.made; numbered = tt; streams = tt })

pub produced-cons :
    (e : Event) (es : List Event) → produced (e ∷ es) ≡ produced (e ∷ []) ++ produced es
unfolding produced
produced-cons (output_event p) es = rw append-nil
produced-cons _ es = refl

pub run-Follows :
    (ch : ℕ) (es : List Event) (x : Bytes) (s : ConsoleServer)
    → Follows ch x s
    → Follows ch (x ++ produced es) (run s es)
unfolding run
run-Follows ch [] x s f = unfold produced in rw append-nil f
run-Follows ch (e ∷ es) x s f =
    rw (produced-cons e es, ← append_assoc)
      (run-Follows ch es (x ++ produced (e ∷ [])) (step s e) (step-Follows ch x s e f))

-- Every state that the server reaches numbers its clients below its counter.
abbrev pub Numbered : ConsoleServer → Type 0
Numbered s = All (Below s.next) s.clients

attach-Numbered :
    (fails : Bool) (s : ConsoleServer) (sent : Bytes) → Numbered s → Numbered (attach fails s sent)
unfolding attach register
attach-Numbered fails s (r1 ∷ r0 ∷ c1 ∷ c0 ∷ rest) h =
    let t = resize fails s (uint16 r1 r0) (uint16 c1 c0) in
    let (same, next, recent) = resize_keeps fails s (uint16 r1 r0) (uint16 c1 c0) in
    let h' : Numbered t = rw (same, next) h in
    All-append (Below (t.next + 1)) t.clients _ (Below-suc t.next t.clients h') (omega arith, tt)
attach-Numbered fails s _ h = h

step-Numbered : (s : ConsoleServer) (e : Event) → Numbered s → Numbered (step s e)
unfolding step output
step-Numbered s (output_event p) h = output_clients-Below s.next p s.clients h
step-Numbered s (attach_event fails sent) h = attach-Numbered fails s sent h
step-Numbered s (deliver_event d fails) h = deliver-Below s.next d fails s.clients h
step-Numbered s (input_event d p) h = elim (Bool-cases (is_attached d s.clients)) [
  | inl yes' ↦ rw yes' h
  | inr no' ↦ rw no' h
]
step-Numbered s (detach_event d) h = detach-Below s.next d s.clients h
step-Numbered s close_event h = tt

pub run-Numbered : (es : List Event) (s : ConsoleServer) → Numbered s → Numbered (run s es)
unfolding run
run-Numbered [] s h = h
run-Numbered (e ∷ es) s h = run-Numbered es (step s e) (step-Numbered s e h)
