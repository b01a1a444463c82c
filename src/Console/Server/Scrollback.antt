-- ===== src/Console/Server/Scrollback.antt =====
-- The recent output that a new client is sent, and its stream from then on.
use vkage.Base.{
  ℕ, zero, suc, ◌+◌, ◌-◌, ◌≤◌, ◌≡◌, refl, sym, ap, ◌∙◌, Bool, true, some, List, [], ◌∷◌, ◌++◌,
  append-nil, append_assoc, arith, Bytes, length, drop, length-append, length-drop, All, All-append,
  Bool-cases, inl, inr, ltb, ◌==◌,
}
use mathlib.Core.List.{flatten}
use mathlib.Core.Path.{subst₂}
use vkage.Console.Server.{
  scrollback, Client, ConsoleServer, new_console_server, trim, output, resize, register, attach,
  Event, output_event, attach_event, deliver_event, input_event, detach_event, close_event,
  is_attached, client_of, step, run, produced, uint16,
}
use vkage.Console.Server.Streams.{stream, Streams, Below, Below-suc}
use vkage.Console.Server.Follows.{
  Follows, resize_keeps, run-Follows, produced-cons, Numbered, run-Numbered,
}

drop_append : (n : ℕ) (a b : Bytes) → n ≤ length a → drop n (a ++ b) ≡ drop n a ++ b
drop_append zero a b h = refl
drop_append (suc n) [] b h = absurd (omega arith)
drop_append (suc n) (x ∷ a) b h = drop_append n a b (omega arith)

drop-nil : (n : ℕ) → drop {A = ℕ} n [] ≡ []
drop-nil zero = refl
drop-nil (suc n) = refl

drop-drop : (n m : ℕ) (a : Bytes) → drop n (drop m a) ≡ drop (m + n) a
drop-drop n zero a = ap (λ (k : ℕ). drop k a) (omega arith)
drop-drop n (suc m) [] = drop-nil n ∙ sym (drop-nil (suc m + n))
drop-drop n (suc m) (x ∷ a) =
    let e : suc m + n ≡ suc (m + n) = omega arith in rw e (drop-drop n m a)

trim-drop : (s : Bytes) → trim s ≡ drop (length s - scrollback) s
unfolding trim
trim-drop s = elim (Bool-cases (ltb scrollback (length s))) [
  | inl long ↦ rw long
  | inr short ↦
      rw short
        (let e : length s - scrollback ≡ 0 = ground arith in sym (ap (λ (k : ℕ). drop k s) e))
]

-- The last bytes of the last bytes are the last bytes.
trim-trim : (a p : Bytes) → trim (trim a ++ p) ≡ trim (a ++ p)
trim-trim a p =
    let k = length a - scrollback in
    let m = length (drop k (a ++ p)) - scrollback in
    let joined : drop k a ++ p ≡ drop k (a ++ p) = sym (drop_append k a p (omega arith)) in
    let total : k + m ≡ length (a ++ p) - scrollback =
      omega (arith, length-append a p, length-drop k (a ++ p)) in
    rw
      (trim-drop a, joined, trim-drop (drop k (a ++ p)), trim-drop (a ++ p), drop-drop m k (a ++ p))
      (ap (λ (n : ℕ). drop n (a ++ p)) total)

trim_small : (s : Bytes) → length s ≤ scrollback → trim s ≡ s
unfolding trim
trim_small s h = ground arith

length-trim : (s : Bytes) → length (trim s) ≤ scrollback
length-trim s = rw trim-drop (omega (arith, length-drop (length s - scrollback) s))

step-recent :
    (s : ConsoleServer) (e : Event) (x : Bytes)
    → s.recent ≡ trim x
    → (step s e).recent ≡ trim (x ++ produced (e ∷ []))
unfolding step output attach register produced
step-recent s (output_event p) x h = rw (h, append-nil) (trim-trim x p)
step-recent s (attach_event fails (r1 ∷ r0 ∷ c1 ∷ c0 ∷ rest)) x h =
    let (same, next, recent) = resize_keeps fails s (uint16 r1 r0) (uint16 c1 c0) in
    rw append-nil (recent ∙ h)
step-recent s (attach_event fails []) x h = rw append-nil h
step-recent s (attach_event fails (a ∷ [])) x h = rw append-nil h
step-recent s (attach_event fails (a ∷ b ∷ [])) x h = rw append-nil h
step-recent s (attach_event fails (a ∷ b ∷ c ∷ [])) x h = rw append-nil h
step-recent s (deliver_event d fails) x h = rw append-nil h
step-recent s (input_event d p) x h =
    rw append-nil
      (elim (Bool-cases (is_attached d s.clients)) [ inl yes' ↦ rw yes' h | inr no' ↦ rw no' h ])
step-recent s (detach_event d) x h = rw append-nil h
step-recent s close_event x h = rw append-nil h

run-recent :
    (es : List Event) (s : ConsoleServer) (x : Bytes)
    → s.recent ≡ trim x
    → (run s es).recent ≡ trim (x ++ produced es)
unfolding run
run-recent [] s x h = unfold produced in rw append-nil h
run-recent (e ∷ es) s x h =
    rw (produced-cons e es, ← append_assoc)
      (run-recent es (step s e) (x ++ produced (e ∷ [])) (step-recent s e x h))

-- After any events the server keeps the last 64 KB of the console's output, or all of it.
pub run-recent_new :
    (es : List Event)
    → ((run new_console_server es).recent ≡ drop (length (produced es) - scrollback) (produced es))
      × (length (run new_console_server es).recent ≤ scrollback)
run-recent_new es =
    let e = run-recent es new_console_server [] (sym (trim_small [] (omega arith))) in
    (e ∙ trim-drop (produced es), rw e (length-trim (produced es)))

fresh-Streams : (n : ℕ) (x : Bytes) (cs : List Client) → All (Below n) cs → All (Streams n x) cs
fresh-Streams n x [] h = tt
fresh-Streams n x (c ∷ cs) (hc, hs) =
    ((λ e o. absurd (omega (arith, hc, e))), fresh-Streams n x cs hs)

register-Follows_new : (s : ConsoleServer) → Numbered s → Follows s.next s.recent (register s)
unfolding register flatten
register-Follows_new s h = record {
  made = omega arith;
  numbered =
      All-append (Below (s.next + 1)) s.clients _ (Below-suc s.next s.clients h) (omega arith, tt);
  streams =
      All-append (Streams s.next s.recent) s.clients _ (fresh-Streams s.next s.recent s.clients h)
        ((λ e o. append-nil s.recent), tt);
}

attached-Follows :
    (s : ConsoleServer) (fails : Bool) (r1 r0 c1 c0 : ℕ)
    → Numbered s
    → Follows s.next s.recent (step s (attach_event fails (r1 ∷ r0 ∷ c1 ∷ c0 ∷ [])))
unfolding step attach
attached-Follows s fails r1 r0 c1 c0 h =
    let t = resize fails s (uint16 r1 r0) (uint16 c1 c0) in
    let (same, next, recent) = resize_keeps fails s (uint16 r1 r0) (uint16 c1 c0) in
    let n : Numbered t = rw (same, next) h in
    subst₂ (λ m r. Follows m r (register t)) next recent (register-Follows_new t n)

run-cons : (e : Event) (es : List Event) (s : ConsoleServer) → run s (e ∷ es) ≡ run (step s e) es
unfolding run
run-cons e es s = refl

run_split : (es fs : List Event) (s : ConsoleServer) → run s (es ++ fs) ≡ run (run s es) fs
unfolding run
run_split [] fs s = refl
run_split (e ∷ es) fs s = run_split es fs (step s e)

client_of-Streams :
    (ch : ℕ) (x : Bytes) (cs : List Client) {c : Client}
    → All (Streams ch x) cs
    → client_of ch cs ≡ some c
    → c.conn_open ≡ true
    → stream c ≡ x
unfolding client_of
client_of-Streams ch x [] h e o = cc
client_of-Streams ch x (d ∷ cs) (hd, hs) e o = elim (Bool-cases (d.channel == ch)) [
  | inr other ↦ client_of-Streams ch x cs hs (rw other at e) o
  | inl same ↦ ground (arith, hd (ground arith) (ground arith))
]

-- A client that attaches after the events `before` follows the console from then on: while it is
-- attached and its connection is open, what was written to it and what waits in its channel are the
-- last 64 KB of the output before its attach, or all of it, and then all output since, each byte
-- once and in order, whatever else happens and in whatever order.
pub run-stream :
    (before after : List Event) (ioctl_fails : Bool) (r1 r0 c1 c0 : ℕ) {c : Client}
    → client_of
        (run new_console_server before).next
        (run new_console_server
          (before ++ attach_event ioctl_fails (r1 ∷ r0 ∷ c1 ∷ c0 ∷ []) ∷ after)).clients
      ≡ some c
    → c.conn_open ≡ true
    → stream c ≡ drop (length (produced before) - scrollback) (produced before) ++ produced after
run-stream before after fails r1 r0 c1 c0 {c} found o =
    let s = run new_console_server before in
    let e = attach_event fails (r1 ∷ r0 ∷ c1 ∷ c0 ∷ []) in
    let f = attached-Follows s fails r1 r0 c1 c0 (run-Numbered before new_console_server tt) in
    let f' = run-Follows s.next after s.recent (step s e) f in
    rw (← (run-recent_new before).0) (
      client_of-Streams s.next (s.recent ++ produced after) (run (step s e) after).clients
        f'.streams
        (ap (λ (t : ConsoleServer). client_of s.next t.clients)
            (sym (run_split before (e ∷ after) new_console_server ∙ run-cons e after s))
          ∙ found)
        o)
