-- ===== src/Harness/Tests.antt =====
-- Masks, lists of CPUs, lines of /proc and checks, on the texts of the harness's tests, and instances
-- of the theorems about them.
use vkage.Base.{
  ℕ, suc, ◌≡◌, refl, ◌↔◌, Bool, true, false, List, [], ◌∷◌, map, none, some, Bytes, codes, split,
  decimal, cut_prefix, has_prefix, str_eq, if◌then◌else◌, leb, All, arith,
}
use vkage.Utf8.{runes, decode_rune}
use vkage.Pci.Address.{cut}
use vkage.Report.Memory.{parse_int, fields}
use vkage.Harness.Masks.{
  Mask, set_bit, set_range, range_count, grow, or_at, parse_cpu_list, parse_mask, trim_space, hex8,
  format_mask, groups_of, drop_zeros, join_groups, intersects, cpu, parse_groups, parse_hex,
  set_digits,
}
use vkage.Harness.Masks.Bits.{digit}
use vkage.Harness.Masks.Laws.{IsMask, intersects_iff, Meet}
use vkage.Harness.Masks.Format.{parse_mask-format_mask}
use vkage.Harness.Masks.Ranges.{
  Range, single, from_to, print_range, Fits, listed, parse_cpu_list-print,
}
use vkage.Harness.Irqs.{IrqHost, online_path, placed, place_irqs}
use vkage.Harness.Irqs.Placed.{Places, HasCpu, place_irqs-Kept}
use vkage.Harness.Stat.{parse_cpu_line, sum, ticks}
use vkage.Harness.Stat.Laws.{parse_cpu_line-times}
use vkage.Harness.Checks.{check, report, wait}
use vkage.Harness.Checks.Laws.{
  run_checks, failed_checks, new_checker, report_iff, none_yet, one_more, wait_eventually,
}

-- CPUs 0 to 3, 8 and 40.
abbrev listed_mask : Mask
listed_mask = 0x1000000010f ∷ []

parsed_list : parse_cpu_list (codes "0-3,8,40") ≡ some listed_mask
unfolding parse_cpu_list split cut cut_prefix has_prefix parse_int set_range set_bit grow or_at
    range_count
parsed_list = refl

formatted_list : format_mask listed_mask ≡ codes "00000100,0000010f"
unfolding format_mask groups_of hex8 drop_zeros join_groups str_eq
formatted_list = refl

parsed_mask : parse_mask (codes "00000100,0000010f\n") ≡ some listed_mask
unfolding parse_mask parse_groups parse_hex set_digits set_bit grow or_at split trim_space
parsed_mask = refl

bad_list : parse_cpu_list (codes "0-3,x") ≡ none
unfolding parse_cpu_list split cut cut_prefix has_prefix parse_int set_range set_bit grow or_at
    range_count
bad_list = refl

parse_mask-format_mask_example :
    (n : Mask) × (parse_mask (format_mask listed_mask) ≡ some n)
    × IsMask n
    × ((c : ℕ) → cpu n c ≡ cpu listed_mask c)
parse_mask-format_mask_example = parse_mask-format_mask listed_mask (omega arith, tt)

abbrev ranges : List Range
ranges = single 8 ∷ single 40 ∷ []

ranges_fit : All Fits (from_to 0 3 ∷ ranges)
unfolding Fits
ranges_fit = ((omega arith, omega arith), (omega arith, (omega arith, tt)))

parse_cpu_list-print_example :
    (m : Mask) × (parse_cpu_list (join_groups (map print_range (from_to 0 3 ∷ ranges))) ≡ some m)
    × IsMask m
    × ((c : ℕ) → cpu m c ≡ (if listed c (from_to 0 3 ∷ ranges) then 1 else 0))
parse_cpu_list-print_example = parse_cpu_list-print (from_to 0 3) ranges ranges_fit

cpu_eight : cpu listed_mask 8 ≡ 1
unfolding cpu digit
cpu_eight = refl

intersects_iff_example :
    (intersects (0x100 ∷ []) listed_mask ≡ true) ↔ Meet (0x100 ∷ []) listed_mask
intersects_iff_example = intersects_iff (0x100 ∷ []) listed_mask (omega arith, tt)

-- A host of one queue that can be written, with the CPUs 0 and 1 online and the queue's mask on CPU
-- 4; its world is what was written.
abbrev queue : IrqHost
queue = record {
  World = List Bytes;
  Fault = ℕ;
  read = λ p w. if str_eq p online_path then codes "0-1" else codes "00000010";
  write = λ p text w. (none, text ∷ w);
  glob = λ p w. codes "vq0" ∷ codes "vq1" ∷ [];
}

placed_queue :
    place_irqs queue (codes "net0") none [] ≡ (none, codes "00000003" ∷ codes "00000003" ∷ [])
unfolding place_irqs str_eq parse_cpu_list parse_mask parse_groups parse_hex set_digits set_bit grow
    or_at split trim_space cut cut_prefix has_prefix parse_int set_range range_count placed
    intersects format_mask groups_of hex8 drop_zeros join_groups
placed_queue = refl

online_parsed : parse_cpu_list (queue.read online_path []) ≡ some (3 ∷ [])
unfolding parse_cpu_list split cut cut_prefix has_prefix parse_int set_range set_bit grow or_at
    range_count str_eq
online_parsed = refl

online_cpu : HasCpu (3 ∷ [])
unfolding cpu digit
online_cpu = (1, refl)

-- All that was written places.
abbrev Written : List Bytes → Type 0
Written w = All (Places none (3 ∷ [])) w

place_irqs-Kept_example : Written (place_irqs queue (codes "net0") none []).1
place_irqs-Kept_example =
    place_irqs-Kept queue Written (codes "net0") none (3 ∷ []) [] online_parsed online_cpu
      (λ f text w p h. (p, h)) tt

busy_line : parse_cpu_line (codes "cpu  100 5 50 800 20 3 2 0 0 0") ≡ (160, 980)
unfolding parse_cpu_line fields has_prefix cut_prefix parse_int ticks sum runes decode_rune
busy_line = refl

abbrev line_fields : List Bytes
line_fields = codes "cpu" ∷ map decimal (100 ∷ 5 ∷ 50 ∷ 800 ∷ 20 ∷ 3 ∷ 2 ∷ 0 ∷ 0 ∷ 0 ∷ [])

line_split : fields (codes "cpu  100 5 50 800 20 3 2 0 0 0") ≡ line_fields
unfolding fields decimal runes decode_rune
line_split = refl

is_cpu : has_prefix (codes "cpu") (codes "cpu") ≡ true
unfolding has_prefix cut_prefix
is_cpu = refl

line_times : parse_cpu_line (codes "cpu  100 5 50 800 20 3 2 0 0 0") ≡ (160, 980)
line_times =
    parse_cpu_line-times (codes "cpu  100 5 50 800 20 3 2 0 0 0") (codes "cpu") 100 5 50 800 20 3 2
      0 (0 ∷ 0 ∷ []) line_split is_cpu (omega arith)

two_checks : report (run_checks ((true, codes "a") ∷ (false, codes "b") ∷ []) new_checker) ≡ (
  some (codes "1 check(s) failed"),
  (run_checks ((true, codes "a") ∷ (false, codes "b") ∷ []) new_checker),
)
unfolding report run_checks check decimal
two_checks = refl

report_iff_example :
    ((run_checks ((true, codes "a") ∷ (false, codes "b") ∷ []) new_checker).failures
      ≡ failed_checks ((true, codes "a") ∷ (false, codes "b") ∷ []))
    × (((report (run_checks ((true, codes "a") ∷ (false, codes "b") ∷ []) new_checker)).0 ≡ none)
        ↔ All (λ (c : Bool × Bytes). c.0 ≡ true) ((true, codes "a") ∷ (false, codes "b") ∷ []))
report_iff_example = report_iff ((true, codes "a") ∷ (false, codes "b") ∷ [])

-- A condition on a counter that counts while the harness sleeps.
abbrev ready : ℕ → Bool × ℕ
ready n = (leb 2 n, n)

wait_eventually_example : wait ready (λ n. suc n) 10 0 ≡ (true, 2)
wait_eventually_example =
    wait_eventually ready (λ n. suc n) 10 2 0 2
      (one_more 1 0 2 refl (one_more 0 1 2 refl (none_yet 2))) (omega arith) refl
