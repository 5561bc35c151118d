-- ===== src/Central/Global/History.antt =====
-- Histories of the state directory of src/pww/central/globalstate.py, with restarts and crashes.
use project_world_wide.Prelude.{
  ◌≡◌, refl, sym, ap, ◌∙◌, subst, Bool, true, false, Option, none, some, List, [], ok,
  if◌then◌else◌, Outcome-ok, Option-cases, inl, inr,
}
use project_world_wide.Prelude.Dict.{Dict, sum_values}
use project_world_wide.Darl.Floats.{Floats}
use project_world_wide.Central.Global.{
  Formats, Tensors, TensorDict, Contribution, GlobalState, save_meta, reload, keys_of,
}
use project_world_wide.Central.Global.Merging.{new_files, replace_files, merge, initialise}
use project_world_wide.Central.Global.Books.{tokens_of}
use project_world_wide.Central.Global.Fedmom.{Fits}
use project_world_wide.Central.Global.Merge.{merged_files, new_files_lem}
use project_world_wide.Central.Global.Outcomes.{IsGlobal, AreBooked, merge-IsOutcome, keys_of-map}

-- GlobalState of an empty directory.
abbrev pub empty_directory : {T : Type 0} → GlobalState T
empty_directory = record {
  round = 0;
  global_step = 0;
  keys = [];
  total_tokens = 0;
  clusters = [];
  global_file = none;
  momentum_file = none;
  saved = none;
}

module _ (F : Type 0) {T : Type 0} ⦃fl : Floats F⦄ ⦃fm : Formats T⦄ ⦃ts : Tensors F T⦄ where
  -- One step: a merge, whether it succeeds or raises, the adoption of a first model, a restart, or a
  -- crash in a merge after one or both files are in place, and the restart from it.
  pub data Step : GlobalState T → GlobalState T → Type 0 where
    merged :
        (lr beta : F) (strict : Bool) (items : List (Contribution F)) (blobs : Dict (TensorDict T))
        (s : GlobalState T)
        → Step s (merge lr beta strict items blobs s).1
    adopted : (source : TensorDict T) (s : GlobalState T) → Step s (initialise source s)
    restarted : (s : GlobalState T) → Step s (reload s)
    crashed :
        (lr beta : F) (fresh : List (Contribution F)) (blobs : Dict (TensorDict T))
        (s : GlobalState T) (both : Bool) (files : TensorDict T × TensorDict T)
        → new_files lr beta fresh blobs s ≡ ok files
        → Step s (reload (replace_files both files s))

  pub data Reach (s : GlobalState T) : GlobalState T → Type 0 where
    here : Reach s s
    next : {t u : GlobalState T} → Reach s t → Step t u → Reach s u

module _ {T : Type 0} where
  reload-IsGlobal :
      (s : GlobalState T)
      → AreBooked s.saved
      → Fits s.momentum_file s.global_file
      → IsGlobal (reload s)
  unfolding reload sum_values
  reload-IsGlobal s booked fits = elim (Option-cases s.saved) [
    | inl nothing ↦
        rw (nothing, reload)
          (record { books = refl; saved = subst AreBooked (sym nothing) tt; momentum = fits })
    | inr (m, there) ↦
        let balanced : AreBooked (some m) = subst AreBooked there booked in
        rw (there, reload)
          (record {
            books = balanced;
            saved = subst AreBooked (sym there) balanced;
            momentum = fits;
          })
  ]

module _ {F T : Type 0} ⦃fl : Floats F⦄ ⦃fm : Formats T⦄ ⦃ts : Tensors F T⦄ where
  -- The files that a merge writes fit the model and one another.
  written_fits :
      (lr beta : F) (fresh : List (Contribution F)) (blobs : Dict (TensorDict T))
      (momentum : Option (TensorDict T)) (g : TensorDict T) (files : TensorDict T × TensorDict T)
      → files ≡ merged_files lr beta fresh blobs momentum g
      → (keys_of (files.0) ≡ keys_of g) × (keys_of (files.1) ≡ keys_of g)
  written_fits lr beta fresh blobs momentum g files e = (
    ap (λ f. keys_of f.0) e ∙ keys_of-map _ g (λ k v. refl),
    ap (λ f. keys_of f.1) e ∙ keys_of-map _ g (λ k v. refl),
  )

  crashed-IsGlobal :
      (lr beta : F) (fresh : List (Contribution F)) (blobs : Dict (TensorDict T))
      (s : GlobalState T) (both : Bool) (files : TensorDict T × TensorDict T)
      → new_files lr beta fresh blobs s ≡ ok files
      → IsGlobal s
      → IsGlobal (reload (replace_files both files s))
  unfolding replace_files
  crashed-IsGlobal lr beta fresh blobs s both files e h =
      let (g, there, written) =
        Outcome-ok (new_files lr beta fresh blobs s) _ _ files
          (new_files_lem lr beta fresh blobs s h.momentum) e in
      let fit = written_fits lr beta fresh blobs s.momentum_file g files written in
      reload-IsGlobal (replace_files both files s) h.saved
        (fits both s.momentum_file g fit (subst (λ x. Fits s.momentum_file x) there h.momentum))
    where
      fits :
          (both : Bool) (v : Option (TensorDict T)) (g : TensorDict T)
          → (keys_of (files.0) ≡ keys_of g) × (keys_of (files.1) ≡ keys_of g)
          → Fits v (some g)
          → Fits (if both then some (files.1) else v) (some (files.0))
      fits true v g fit old = fit.1 ∙ sym fit.0
      fits false none g fit old = tt
      fits false (some v) g fit old = old ∙ sym fit.0

  Step-IsGlobal : {s t : GlobalState T} → Step F s t → IsGlobal s → IsGlobal t
  unfolding initialise save_meta
  Step-IsGlobal (merged lr beta strict items blobs s) h =
      (merge-IsOutcome lr beta strict items blobs s h).1
  Step-IsGlobal (adopted source s) h = record { books = h.books; saved = h.books; momentum = tt }
  Step-IsGlobal (restarted s) h = reload-IsGlobal s h.saved h.momentum
  Step-IsGlobal (crashed lr beta fresh blobs s both files e) h =
      crashed-IsGlobal lr beta fresh blobs s both files e h

  Reach-IsGlobal : {s t : GlobalState T} → Reach F s t → IsGlobal s → IsGlobal t
  Reach-IsGlobal here h = h
  Reach-IsGlobal (next r step) h = Step-IsGlobal step (Reach-IsGlobal r h)

  -- From an empty directory, whatever merges are tried, models adopted, whenever the node restarts,
  -- and whenever it crashes in a merge that has put one or both of its files in place: the tokens
  -- of the clusters add up to the total, and the momentum has the model's tensors.
  pub books_balance :
      (s : GlobalState T)
      → Reach F empty_directory s
      → (tokens_of s.clusters ≡ s.total_tokens) × Fits s.momentum_file s.global_file
  unfolding sum_values
  books_balance s r =
      let h = Reach-IsGlobal r (record { books = refl; saved = tt; momentum = tt }) in
      (h.books, h.momentum)
