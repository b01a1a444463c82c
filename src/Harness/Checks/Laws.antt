-- ===== src/Harness/Checks/Laws.antt =====
-- What a run of checks reports, when polling succeeds, and what is found of the kernel's log.
use vkage.Base.{
  ℕ, zero, suc, ◌≤◌, ◌≡◌, refl, sym, ◌∙◌, ◌↔◌, ◌⊎◌, inl, inr, Bool, true, false, List, [], ◌∷◌,
  ◌++◌, append-nil, append_assoc, none, some, Bytes, length, ◌==◌, if◌then◌else◌, All, arith,
  Bool-cases,
}
use vkage.Pci.Address.{contains}
use vkage.Harness.Checks.{
  Checker, check, report, Ended, outcome, is_ok, wait, since_next, since, or_whole, log_since,
  deadline, cancelled, exited, failed, done,
}

-- Checks one after another.
unfoldable pub run_checks : List (Bool × Bytes) → Checker → Checker
run_checks [] c = c
run_checks ((cond, what) ∷ cs) c = run_checks cs (check cond what c).1

-- The checks that failed, in order.
pub failed_checks : List (Bool × Bytes) → List Bytes
failed_checks [] = []
failed_checks ((cond, what) ∷ cs) = if cond then failed_checks cs else what ∷ failed_checks cs

check_failures :
    (cond : Bool) (what : Bytes) (cs : List (Bool × Bytes)) (c : Checker)
    → (check cond what c).1.failures ++ failed_checks cs
      ≡ c.failures ++ failed_checks ((cond, what) ∷ cs)
unfolding check failed_checks
check_failures true what cs c = refl
check_failures false what cs c = append_assoc c.failures (what ∷ []) (failed_checks cs)

run_checks_failures :
    (cs : List (Bool × Bytes)) (c : Checker)
    → (run_checks cs c).failures ≡ c.failures ++ failed_checks cs
unfolding run_checks failed_checks
run_checks_failures [] c = sym (append-nil c.failures)
run_checks_failures ((cond, what) ∷ cs) c =
    run_checks_failures cs (check cond what c).1 ∙ check_failures cond what cs c

all_hold : (cs : List (Bool × Bytes)) → (failed_checks cs ≡ []) ↔ All (λ c. c.0 ≡ true) cs
unfolding failed_checks
all_hold [] = (λ e. tt, λ h. refl)
all_hold ((true, what) ∷ cs) = (λ e. (refl, (all_hold cs).0 e), λ (p, h). (all_hold cs).1 h)
all_hold ((false, what) ∷ cs) = (λ e. absurd (cc e), λ (p, h). absurd (cc p))

is_empty : (fs : List Bytes) → ((length fs == 0) ≡ true) ↔ (fs ≡ [])
is_empty [] = (λ e. refl, λ e. refl)
is_empty (f ∷ fs) = (λ e. absurd (ground arith), λ e. absurd (cc e))

report-none : (c : Checker) → ((report c).0 ≡ none) ↔ (c.failures ≡ [])
unfolding report
report-none c = elim (Bool-cases (length c.failures == 0)) [
  | inl e ↦ rw e (λ f. (is_empty c.failures).0 e, λ f. refl)
  | inr e ↦ rw e (λ f. absurd (cc f), λ f. absurd (cc ((is_empty c.failures).1 f, e)))
]

abbrev pub new_checker : Checker
new_checker = record { failures = []; printed = [] }

-- Behind any checks, a new `Checker` has as failures exactly the checks that did not hold, in order,
-- and its report is no error exactly where all of them held.
pub report_iff :
    (cs : List (Bool × Bytes))
    → ((run_checks cs new_checker).failures ≡ failed_checks cs)
      × (((report (run_checks cs new_checker)).0 ≡ none) ↔ All (λ c. c.0 ≡ true) cs)
report_iff cs =
    let e = run_checks_failures cs new_checker in
    let r = report-none (run_checks cs new_checker) in
    (e, (λ f. (all_hold cs).0 (sym e ∙ r.0 f), λ h. r.1 (e ∙ (all_hold cs).1 h)))

ended_well :
    {Fault : Type 0} (e : Ended Fault)
    → is_ok (outcome e) ≡ true
    → (e ≡ done) ⊎ (e ≡ exited (some 0))
unfolding is_ok outcome
ended_well (deadline f) h = absurd (cc h)
ended_well (cancelled f) h = absurd (cc h)
ended_well (failed f) h = absurd (cc h)
ended_well (exited none) h = absurd (cc h)
ended_well (exited (some zero)) h = inr refl
ended_well (exited (some (suc n))) h = absurd (ground arith)
ended_well done h = inl refl

is_ok_ended :
    {Fault : Type 0} (e : Ended Fault)
    → (e ≡ done) ⊎ (e ≡ exited (some 0))
    → is_ok (outcome e) ≡ true
unfolding is_ok outcome
is_ok_ended e (inl p) = rw p refl
is_ok_ended e (inr p) = rw p refl

-- A command is OK exactly if it ran to its end and its status was 0: one that did not new_checker, was
-- stopped at its timeout or with its context, or was killed, is not.
pub is_ok_iff :
    {Fault : Type 0} (e : Ended Fault)
    → (is_ok (outcome e) ≡ true) ↔ ((e ≡ done) ⊎ (e ≡ exited (some 0)))
is_ok_iff e = (ended_well e, is_ok_ended e)

pair_eq : {World : Type 0} (r : Bool × World) → r.0 ≡ true → r ≡ (true, r.1)
pair_eq (b, w) e = rw e refl

module _ {World : Type 0} (poll : World → Bool × World) (sleep : World → World) where
  -- So many polls that fail, each with its sleep.
  pub data Fails : ℕ → World → World → Type 0 where
    none_yet : (w : World) → Fails 0 w w
    one_more :
        (n : ℕ) (w u : World)
        → (poll w).0 ≡ false
        → Fails n (sleep (poll w).1) u
        → Fails (suc n) w u

  -- Where the condition holds after polls that fail, no more of them than there is time for, `Wait`
  -- reports that it does, and polls no more.
  pub wait_eventually :
      (m n : ℕ) (w u : World)
      → Fails n w u
      → n ≤ m
      → (poll u).0 ≡ true
      → wait poll sleep m w ≡ (true, (poll u).1)
  unfolding wait
  wait_eventually zero _ _ _ (none_yet w) l e = pair_eq (poll w) e
  wait_eventually (suc m) _ _ _ (none_yet w) l e = rw e refl
  wait_eventually zero _ _ _ (one_more n w u f fails) l e = absurd (omega arith)
  wait_eventually (suc m) _ _ _ (one_more n w u f fails) l e =
      rw f (wait_eventually m n (sleep (poll w).1) u fails (omega arith) e)

unmarked :
    (mark : Bytes) (ls : List Bytes) → All (λ l. contains l mark ≡ false) ls → since mark ls ≡ none
unfolding since since_next
unmarked mark [] h = refl
unmarked mark (l ∷ ls) (p, h) = rw (unmarked mark ls h, p) refl

marked :
    (mark l : Bytes) (before ls : List Bytes)
    → contains l mark ≡ true
    → All (λ m. contains m mark ≡ false) ls
    → since mark (before ++ l ∷ ls) ≡ some ls
unfolding since since_next
marked mark l [] ls e h = rw (unmarked mark ls h, e) refl
marked mark l (b ∷ before) ls e h = rw (marked mark l before ls e h) refl

-- The kernel's log since a mark is what follows the last line with the mark, and all of the log where
-- no line has it.
pub log_since_mark :
    (mark l : Bytes) (before ls : List Bytes)
    → contains l mark ≡ true
    → All (λ m. contains m mark ≡ false) ls
    → (log_since mark (before ++ l ∷ ls) ≡ ls) × (log_since mark ls ≡ ls)
unfolding log_since or_whole
log_since_mark mark l before ls e h =
    (rw (marked mark l before ls e h) refl, rw (unmarked mark ls h) refl)
