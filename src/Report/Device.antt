-- ===== src/Report/Device.antt =====
-- `showDevice` and the choice of the devices in `cmdStatus`, of tools/cmd/invirtio/status.go. A line is
-- what one call of fmt prints, without its newline.
use vkage.Base.{
  ℕ, zero, suc, ◌-◌, Bool, not, ◌&&◌, List, [], ◌∷◌, ◌++◌, map, Option, none, some, Bytes, codes,
  str_eq, split, length, ltb, if◌then◌else◌, Result, ok, err,
}
use vkage.Command.{trim_right}
use vkage.Config.Devices.{Config, Device, find_name}
use vkage.Config.Order.{names}
use vkage.Report.Printable.{printable}
use vkage.Report.Memory.{Amount}
use vkage.Report.Sizes.{format_size, memory_use, memory_detail, guest_memory}

-- The memory of a guest's cgroup: its files' amounts, memory.stat, and what is pinned.
pub record Usage : Type 0 where
  pub current : Option Amount
  pub peak : Option Amount
  pub limit : Option Amount
  pub stat : Option Bytes
  pub pinned : Option ℕ

-- What is read of the host and the guest for one device. A driver's text is empty where there is none;
-- an interface comes with its state, if that can be read.
pub record Found : Type 0 where
  pub active : Bytes
  pub enabled : Bytes
  pub host_driver : Bytes
  pub guest_driver : Option Bytes
  pub exists : Bool
  pub attached : Bool
  pub interfaces : List (Bytes × Option Bytes)
  pub cgroup : Option Usage
  pub meminfo : Result Bytes Bytes
  pub counters : Result Bytes Bytes

spaces : ℕ → Bytes
spaces zero = []
spaces (suc n) = b' ' ∷ spaces n

-- `row`, with the label padded to 16 places.
unfoldable pub row : Bytes → Bytes → Bytes
unfolding spaces
row label value =
    let l = label ++ codes ":" in codes "  " ++ (l ++ (spaces (16 - length l) ++ (b' ' ∷ value)))

unfoldable pub vduse_state : Found → Bytes
vduse_state f =
    if not f.exists
    then codes "not created"
    else if f.attached
        && not (str_eq f.active (codes "active"))
        && not (str_eq f.active (codes "activating"))
    then codes "created, on the vDPA bus with no guest, invirtio disable removes it"
    else if f.attached
    then codes "created, on the vDPA bus"
    else codes "created, not on the vDPA bus"

interface_text : Bytes × Option Bytes → Bytes
interface_text (n, none) = n ++ codes " (unknown)"
interface_text (n, some oper) = n ++ (codes " (" ++ (oper ++ codes ")"))

interface_rows : List (Bytes × Option Bytes) → List Bytes
unfolding row interface_text
interface_rows [] = row (codes "host interface") (codes "none") ∷ []
interface_rows (i ∷ is) = map (λ n. row (codes "host interface") (interface_text n)) (i ∷ is)

memory_row : Option Usage → Bytes
unfolding row
memory_row none = row (codes "memory") (codes "no guest runs")
memory_row (some u) = row (codes "memory") (memory_use u.current u.peak u.limit)

pinned_text : Option ℕ → Bytes
pinned_text none = codes "not available"
pinned_text (some n) = format_size n ++ codes " of that memory"

detail_rows : Option Usage → List Bytes
unfolding row pinned_text
detail_rows none = []
detail_rows (some u) =
    row (codes "memory detail") (memory_detail u.stat)
    ∷ row (codes "pinned for DMA") (pinned_text u.pinned)
    ∷ []

guest_rows : Result Bytes Bytes → List Bytes
unfolding row
guest_rows (err e) = []
guest_rows (ok meminfo) = row (codes "guest memory") (printable (guest_memory meminfo)) ∷ []

counter_lines : Result Bytes Bytes → List Bytes
unfolding row
counter_lines (err e) = row (codes "guest counters") (printable (codes "not available: " ++ e)) ∷ []
counter_lines (ok text) =
    codes "  guest counters:"
    ∷ map (λ l. codes "    " ++ l) (split (trim_right (printable text)) b'\n')

-- The lines for a level of 0, 1 or 2.
unfoldable pub show_device : Bytes → Device → Found → ℕ → List Bytes
unfolding row vduse_state interface_rows memory_row detail_rows guest_rows counter_lines
show_device name dev f level =
    (name ++ (codes " (" ++ (dev.typ ++ (codes ", " ++ (dev.address ++ codes ")")))))
    ∷ row (codes "service") (f.active ++ (codes ", " ++ f.enabled))
    ∷ row (codes "host driver") (if str_eq f.host_driver [] then codes "none" else f.host_driver)
    ∷ row (codes "guest driver") (elim f.guest_driver [ none ↦ codes "none" | some d ↦ d ])
    ∷ row (codes "VDUSE device") (vduse_state f)
    ∷ (interface_rows f.interfaces
        ++ (memory_row f.cgroup
            ∷ (if ltb level 1
                then []
                else detail_rows f.cgroup
                  ++ (guest_rows f.meminfo
                      ++ (if ltb level 2 then [] else counter_lines f.counters)))))

-- The level of the flags -v and -vv.
unfoldable pub level_of : Bool → Bool → ℕ
level_of verbose counters = if counters then 2 else if verbose then 1 else 0

-- The devices that status shows: the one that is named, or all in the order of their names; `none` is
-- the error for a name that is not there.
unfoldable pub chosen : Config → Option Bytes → Option (List Bytes)
unfolding names
chosen cfg none = some (names cfg)
chosen cfg (some name) = elim (find_name name cfg) [ none ↦ none | some e ↦ some (name ∷ []) ]
