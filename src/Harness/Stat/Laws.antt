-- ===== src/Harness/Stat/Laws.antt =====
-- What is read of the lines of /proc.
use vkage.Base.{
  ℕ, suc, ◌+◌, ◌%◌, ◌^◌, ◌≤◌, ◌≡◌, refl, ap, true, false, List, [], ◌∷◌, ◌++◌, map, none, some,
  Bytes, codes, has_prefix, length, ltb, ◌==◌, decimal, arith, All,
}
use vkage.Report.Memory.{fields}
use vkage.Config.Sizes.{max_int64}
use vkage.Report.Memory.Decimals.{parse_int-decimal}
use vkage.Harness.Stat.{
  numbers_next, numbers, sum, sub64, ticks, cpu_fields, parse_cpu_line, after_next, after_last,
  parse_stat, of_content, parent,
}

numbers-decimal : (vs : List ℕ) → All (λ v. v ≤ max_int64) vs → numbers (map decimal vs) ≡ some vs
unfolding numbers numbers_next
numbers-decimal [] h = refl
numbers-decimal (v ∷ vs) (p, h) = rw (parse_int-decimal v p, numbers-decimal vs h) refl

after_last-nothing : (s : Bytes) → All (λ b. (b == b')') ≡ false) s → after_last s ≡ none
unfolding after_last after_next
after_last-nothing [] h = refl
after_last-nothing (b ∷ s) (p, h) = rw (after_last-nothing s h, p) refl

after_last-append :
    (name rest : Bytes)
    → All (λ b. (b == b')') ≡ false) rest
    → after_last (name ++ b')' ∷ rest) ≡ some rest
unfolding after_last after_next
after_last-append [] rest h = rw (after_last-nothing rest h) refl
after_last-append (b ∷ name) rest h = rw (after_last-append name rest h) refl

-- Whatever stands in front of the last parenthesis of a process's stat line, such as a command
-- name with spaces and parentheses, its parent and ticks are read of what follows.
pub parse_stat_name :
    (name other rest : Bytes)
    → All (λ b. (b == b')') ≡ false) rest
    → (parse_stat (name ++ b')' ∷ rest) ≡ parse_stat (other ++ b')' ∷ rest))
      × (parent (some (name ++ b')' ∷ rest)) ≡ parent (some (other ++ b')' ∷ rest)))
unfolding parse_stat parent of_content
parse_stat_name name other rest h =
    rw (after_last-append name rest h, after_last-append other rest h) (refl, refl)

-- A sum that fits an int64 does not wrap around.
plain_sum : List ℕ → ℕ
plain_sum [] = 0
plain_sum (n ∷ ns) = n + plain_sum ns

sum_fits : (t : ℕ) (ns : List ℕ) → t + plain_sum ns ≤ max_int64 → sum t ns ≡ t + plain_sum ns
unfolding sum plain_sum
sum_fits t [] h = omega arith
sum_fits t (n ∷ ns) h =
    let e : (t + n) % 2 ^ 64 ≡ t + n = omega arith in
    rw e (omega (arith, sum_fits (t + n) ns (omega arith)))

busy_ticks :
    (total idle iowait busy : ℕ)
    → total ≡ busy + idle + iowait
    → total ≤ max_int64
    → sub64 (sub64 total idle) iowait ≡ busy
busy_ticks total idle iowait busy e l = omega arith

long_enough : (n : ℕ) → ltb (suc (suc (suc (suc (suc (suc (suc (suc (suc n))))))))) 8 ≡ false
long_enough n = ground arith

-- The busy ticks of a cpu line are the total's less those idle and in I/O wait, and what follows
-- the first eight numbers, which are counted in them, adds nothing.
pub parse_cpu_line-times :
    (line name : Bytes) (user nice system idle iowait irq softirq steal : ℕ) (guest : List ℕ)
    → fields line
      ≡ name ∷ map decimal (user ∷ nice ∷ system ∷ idle ∷ iowait ∷ irq ∷ softirq ∷ steal ∷ guest)
    → has_prefix name (codes "cpu") ≡ true
    → user + nice + system + idle + iowait + irq + softirq + steal ≤ max_int64
    → parse_cpu_line line ≡ (
      user + nice + system + irq + softirq + steal,
      user + nice + system + idle + iowait + irq + softirq + steal,
    )
unfolding parse_cpu_line cpu_fields ticks plain_sum
parse_cpu_line-times line name user nice system idle iowait irq softirq steal guest e p l =
    let vs = user ∷ nice ∷ system ∷ idle ∷ iowait ∷ irq ∷ softirq ∷ steal ∷ [] in
    let ns = numbers-decimal vs (
      omega arith,
      (
        omega arith,
        (
          omega arith,
          (omega arith, (omega arith, (omega arith, (omega arith, (omega arith, tt))))),
        ),
      ),
    ) in
    let total : sum 0 vs ≡ user + nice + system + idle + iowait + irq + softirq + steal =
      omega (arith, sum_fits 0 vs (omega arith)) in
    rw (e, p, long_enough (length (map decimal guest)), ns, total)
      (ap (λ b. (b, user + nice + system + idle + iowait + irq + softirq + steal))
        (busy_ticks (user + nice + system + idle + iowait + irq + softirq + steal) idle iowait
          (user + nice + system + irq + softirq + steal) (omega arith) l))
