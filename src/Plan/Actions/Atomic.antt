-- ===== src/Plan/Actions/Atomic.antt =====
-- Files are replaced as a whole: what a crash at any point of a run leaves of them.
use vkage.Base.{
  ℕ, ◌≡◌, ◌≢◌, refl, sym, ap, ◌∙◌, ◌⊎◌, inl, inr, List, [], ◌∷◌, ◌++◌, Option, none, some, Bytes,
  codes, All, All-append, arith, length, length-append, Option-cases, Bool-cases,
}
use vkage.Host.{Host}
use vkage.Host.Files.{FileLaws}
use vkage.Plan.Actions.{
  Traced, ended, step_then, step_or_remove, tmp_of, write_run, save_run, copy_steps, copy_opened,
  copy_file,
}

tmp_of-ne : (path : Bytes) → path ≢ tmp_of path
tmp_of-ne path e = absurd (omega (arith, ap length e, length-append path (codes ".tmp")))

module _ (h : Host) (q : Bytes) (old new : Option Bytes) where
  -- The file is the old one or the new one.
  abbrev pub IsEither : h.World → Type 0
  IsEither w = (h.content q w ≡ old) ⊎ (h.content q w ≡ new)

  abbrev pub IsLast : Option h.Fault → h.World → Type 0
  IsLast none w = h.content q w ≡ new
  IsLast (some e) w = h.content q w ≡ old

  -- Every world of the run has the old file or the new one; at its end it is the new one if there is
  -- no error, and the old one if there is.
  abbrev pub IsAtomic : Traced h → Type 0
  IsAtomic t = All IsEither t.passed × IsLast t.error t.world

  IsLast-IsEither : (e : Option h.Fault) (w : h.World) → IsLast e w → IsEither w
  IsLast-IsEither none w l = inr l
  IsLast-IsEither (some e) w l = inl l

  ended-IsAtomic :
      (ws : List h.World) (r : Option h.Fault × h.World)
      → All IsEither ws
      → IsLast r.0 r.1
      → IsAtomic (ended h ws r)
  unfolding ended
  ended-IsAtomic ws (e, w) a l = (All-append IsEither ws (w ∷ []) a (IsLast-IsEither e w l, tt), l)

  step_then-IsAtomic :
      (ws : List h.World) (r : Option h.Fault × h.World) (next : List h.World → h.World → Traced h)
      → All IsEither ws
      → h.content q r.1 ≡ old
      → (r.0 ≡ none → (vs : List h.World) → All IsEither vs → IsAtomic (next vs r.1))
      → IsAtomic (step_then h ws r next)
  unfolding step_then
  step_then-IsAtomic ws (none, w) next a o k =
      k refl (ws ++ w ∷ []) (All-append IsEither ws (w ∷ []) a (inl o, tt))
  step_then-IsAtomic ws (some e, w) next a o k = ended-IsAtomic ws (some e, w) a o

  step_or_remove-IsAtomic :
      (tmp : Bytes) (ws : List h.World) (r : Option h.Fault × h.World)
      (next : List h.World → h.World → Traced h)
      → All IsEither ws
      → h.content q r.1 ≡ old
      → h.content q (h.remove tmp r.1).1 ≡ old
      → (r.0 ≡ none → (vs : List h.World) → All IsEither vs → IsAtomic (next vs r.1))
      → IsAtomic (step_or_remove h tmp ws r next)
  unfolding step_or_remove
  step_or_remove-IsAtomic tmp ws (none, w) next a o m k =
      k refl (ws ++ w ∷ []) (All-append IsEither ws (w ∷ []) a (inl o, tt))
  step_or_remove-IsAtomic tmp ws (some e, w) next a o m k =
      ended-IsAtomic (ws ++ w ∷ []) (some e, (h.remove tmp w).1)
        (All-append IsEither ws (w ∷ []) a (inl o, tt)) m

module _ (h : Host) (laws : FileLaws h) where
  -- The last step of each run, from a world whose temporary file is whole.
  rename-IsLast :
      (path : Bytes) (old new : Option Bytes) (w : h.World)
      → h.content path w ≡ old
      → h.content (tmp_of path) w ≡ new
      → IsLast h path old new (h.rename (tmp_of path) path w).0 (h.rename (tmp_of path) path w).1
  rename-IsLast path old new w o n = elim (Option-cases (h.rename (tmp_of path) path w).0) [
    | inl ok ↦ rw ok (laws.rename_done (tmp_of path) path w ok ∙ n)
    | inr (e, err) ↦ rw err (laws.rename_failed (tmp_of path) path e w err ∙ o)
  ]

  -- Wherever the run of `writeAction` is cut short, the file is the old one or the whole new one; it is
  -- the new one if the run ends without an error, and the old one if it ends with one.
  pub write_run-IsAtomic :
      (path content : Bytes) (mode : ℕ) (w : h.World)
      → IsAtomic h path (h.content path w) (some content) (write_run h path content mode w)
  unfolding write_run
  write_run-IsAtomic path content mode w =
      let tmp = tmp_of path in
      let old = h.content path w in
      let w1 = (h.write_file tmp content mode w).1 in
      let w2 = (h.chmod tmp mode w1).1 in
      let o1 : h.content path w1 ≡ old =
        laws.write_elsewhere tmp path content mode w (tmp_of-ne path) in
      let o2 : h.content path w2 ≡ old = laws.chmod_content tmp path mode w1 ∙ o1 in
      step_then-IsAtomic h path old (some content) [] (h.write_file tmp content mode w) _ tt o1
        (λ ok vs a.
          step_or_remove-IsAtomic h path old (some content) tmp vs (h.chmod tmp mode w1) _ a o2
            (laws.remove_elsewhere tmp path w2 (tmp_of-ne path) ∙ o2)
            (λ ok2 us b. ended-IsAtomic h path old (some content) us (h.rename tmp path w2) b (
              rename-IsLast path old (some content) w2 o2
                (laws.chmod_content tmp tmp mode w1 ∙ laws.write_done tmp content mode w ok))))

  copy_steps-IsAtomic :
      (src dst : Bytes) (mode : ℕ) (w : h.World)
      → src ≢ tmp_of dst
      → IsAtomic h dst (h.content dst w) (h.content src w) (copy_steps h src dst mode w)
  unfolding copy_steps
  copy_steps-IsAtomic src dst mode w other =
      let tmp = tmp_of dst in
      let old = h.content dst w in
      let new = h.content src w in
      let ne = tmp_of-ne dst in
      let w1 = (h.create tmp mode w).1 in
      let w2 = (h.copy_data src tmp w1).1 in
      let w3 = (h.close tmp w2).1 in
      let w4 = (h.chmod tmp mode w3).1 in
      let o1 : h.content dst w1 ≡ old = laws.create_elsewhere tmp dst mode w ne in
      let s1 : h.content src w1 ≡ new = laws.create_elsewhere tmp src mode w other in
      let o2 : h.content dst w2 ≡ old = laws.copy_elsewhere src tmp dst w1 ne ∙ o1 in
      let o3 : h.content dst w3 ≡ old = laws.close_content tmp dst w2 ∙ o2 in
      let o4 : h.content dst w4 ≡ old = laws.chmod_content tmp dst mode w3 ∙ o3 in
      step_then-IsAtomic h dst old new [] (h.create tmp mode w) _ tt o1 (λ _ vs1 a1.
        step_or_remove-IsAtomic h dst old new tmp vs1 (h.copy_data src tmp w1) _ a1 o2
          (laws.remove_elsewhere tmp dst w2 ne ∙ o2)
          (λ ok vs2 a2.
            step_or_remove-IsAtomic h dst old new tmp vs2 (h.close tmp w2) _ a2 o3
              (laws.remove_elsewhere tmp dst w3 ne ∙ o3)
              (λ _ vs3 a3.
                step_then-IsAtomic h dst old new vs3 (h.chmod tmp mode w3) _ a3 o4 (λ _ vs4 a4.
                  ended-IsAtomic h dst old new vs4 (h.rename tmp dst w4) a4 (
                    rename-IsLast dst old new w4 o4 (
                      laws.chmod_content tmp tmp mode w3
                      ∙ laws.close_content tmp tmp w2
                      ∙ laws.copy_done src tmp w1 ok
                      ∙ s1))))))

  copy_opened-IsAtomic :
      (o : Option h.Fault) (src dst : Bytes) (mode : ℕ) (w : h.World)
      → src ≢ tmp_of dst
      → IsAtomic h dst (h.content dst w) (h.content src w) (copy_opened h o src dst mode w)
  unfolding copy_opened
  copy_opened-IsAtomic none src dst mode w other = copy_steps-IsAtomic src dst mode w other
  copy_opened-IsAtomic (some e) src dst mode w other = ((inl refl, tt), refl)

  -- Wherever `copyFile` is cut short, the destination is the old file or the whole source; it is the
  -- source if the copy ends without an error, and the old file if it ends with one. The source is not
  -- the destination's temporary file.
  pub copy_file-IsAtomic :
      (src dst : Bytes) (mode : ℕ) (w : h.World)
      → src ≢ tmp_of dst
      → IsAtomic h dst (h.content dst w) (h.content src w) (copy_file h src dst mode w)
  unfolding copy_file
  copy_file-IsAtomic src dst mode w other = elim (Bool-cases (h.same_file src dst w)) [
    | inl same ↦ rw same ((inl refl, tt), sym (laws.same_content src dst w same))
    | inr differ ↦ rw differ (copy_opened-IsAtomic (h.open_source src w) src dst mode w other)
  ]

  -- Wherever `save` is cut short, the configuration's file is the old one or the whole new one; it
  -- is the new one if `save` ends without an error, and the old one if it ends with one.
  pub save_run-IsAtomic :
      (dir path text : Bytes) (w : h.World)
      → IsAtomic h path (h.content path w) (some (text ++ b'\n' ∷ [])) (save_run h dir path text w)
  unfolding save_run
  save_run-IsAtomic dir path text w =
      let tmp = tmp_of path in
      let old = h.content path w in
      let new : Option Bytes = some (text ++ b'\n' ∷ []) in
      let w1 = (h.mkdir_all dir 493 w).1 in
      let w2 = (h.write_file tmp (text ++ b'\n' ∷ []) 420 w1).1 in
      let o1 : h.content path w1 ≡ old = laws.mkdir_content dir path 493 w in
      let o2 : h.content path w2 ≡ old =
        laws.write_elsewhere tmp path (text ++ b'\n' ∷ []) 420 w1 (tmp_of-ne path) ∙ o1 in
      step_then-IsAtomic h path old new [] (h.mkdir_all dir 493 w) _ tt o1 (λ _ vs a.
        step_then-IsAtomic h path old new vs (h.write_file tmp (text ++ b'\n' ∷ []) 420 w1) _ a o2
          (λ ok us b. ended-IsAtomic h path old new us (h.rename tmp path w2) b (
            rename-IsLast path old new w2 o2 (laws.write_done tmp (text ++ b'\n' ∷ []) 420 w1 ok))))
