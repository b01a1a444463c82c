-- ===== src/Report/Tests.antt =====
-- What status and list show of a few inputs, and an instance of the theorem on sizes.
use vkage.Base.{
  All, ℕ, ◌≡◌, refl, ◌∷◌, ◌++◌, some, codes, arith, decimal, str_eq, split, has_prefix, cut_prefix,
  trim_prefix,
}
use vkage.Utf8.{runes, decode_rune}
use vkage.Pci.Address.{valid_address, cut}
use vkage.Report.Printable.{printable}
use vkage.Report.Printable.Shown.{IsPlain, printable-shown}
use vkage.Report.Memory.{trim_colon}
use vkage.Report.Sizes.{format_size, guest_memory}
use vkage.Report.Sizes.Units.{Shown, format_size-Shown}
use vkage.Report.Device.{row}
use vkage.Report.Listing.{parse_lspci, pci_ids}

cleaned : printable (codes "a\tb\n" ++ (27 ∷ 155 ∷ 127 ∷ codes "c")) ≡ codes "a\tb\nc"
unfolding printable runes decode_rune
cleaned = refl

half_gig : format_size 1072693248 ≡ codes "1023M"
unfolding format_size decimal
half_gig = refl

format_size-Shown_example : Shown 1073217536 (format_size 1073217536)
format_size-Shown_example = format_size-Shown 1073217536 (omega arith)

-- Beyond 2^53, where a float64 is not exact.
large : format_size 3473162852989476596 ≡ codes "3234634970.30G"
unfolding format_size decimal
large = refl

labelled : row (codes "memory") (codes "1K") ≡ codes "  memory:          1K"
unfolding row
labelled = refl

listed :
    parse_lspci (codes "0000:06:00.0 Network controller: MEDIATEK Corp. MT7922")
    ≡ some (codes "0000:06:00.0", codes "MEDIATEK Corp. MT7922")
unfolding parse_lspci cut valid_address has_prefix cut_prefix
listed = refl

ids : pci_ids (codes "0x14c3") (codes "0x0616") ≡ codes "14c3:0616"
unfolding pci_ids trim_prefix
ids = refl

guest_view :
    guest_memory (codes "MemTotal:  2048 kB\nMemFree: 512 kB\nMemAvailable:    1024 kB\n")
    ≡ codes "1M used of 2M, 512K free"
unfolding guest_memory split runes decode_rune str_eq trim_colon decimal
guest_view = refl

printable-shown_example :
    All (λ (rune : ℕ × ℕ). IsPlain rune.0) (runes (printable (27 ∷ 155 ∷ codes "c")))
    × (printable (printable (27 ∷ 155 ∷ codes "c")) ≡ printable (27 ∷ 155 ∷ codes "c"))
printable-shown_example = printable-shown (27 ∷ 155 ∷ codes "c")
