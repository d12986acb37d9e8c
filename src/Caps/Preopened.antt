-- ===== src/Caps/Preopened.antt =====
-- The directories of a context, and the entries of the document that they are opened for.
use x07_wasm_backend.Common.{
  ◌≡◌, refl, ◌⊎◌, inl, inr, true, false, List, [], ◌∷◌, codes, ℕ, Bool-cases,
}
use mathlib.Core.Path.{subst}
use x07_wasm_backend.Common.Result.{ok, ok-injective, bind-eq-ok}
use x07_wasm_backend.Caps.Doc.{FsPreopen, FsPreopenMode}
use x07_wasm_backend.Caps.Enforce.{HostEnv, Preopen, perms_of, preopen_of, preopen_all}

-- A directory is the one that its entry names, below the base directory and under the guest's path. It can be
-- read, and it can be changed, with its files, under the mode `rw` alone.
pub record IsPreopened (host : HostEnv) (base_dir : List ℕ) (entry : FsPreopen) (dir : Preopen)
    : Type 0 where
  pub guest_path : dir.guest_path ≡ entry.path
  pub host_dir : dir.host_dir ≡ host.join base_dir (codes entry.path)
  pub readable : (dir.dir_perms.read ≡ true) × (dir.file_perms.read ≡ true)
  pub writable :
      ((entry.mode ≡ FsPreopenMode.ro)
        × (dir.dir_perms.mutate ≡ false)
        × (dir.file_perms.write ≡ false))
      ⊎ ((entry.mode ≡ FsPreopenMode.rw)
          × (dir.dir_perms.mutate ≡ true)
          × (dir.file_perms.write ≡ true))

-- One directory for each entry, in order.
abbrev pub ArePreopened : HostEnv → List ℕ → List FsPreopen → List Preopen → Type 0
ArePreopened host base_dir [] [] = Unit
ArePreopened host base_dir [] (q ∷ qs) = ⊥
ArePreopened host base_dir (p ∷ ps) [] = ⊥
ArePreopened host base_dir (p ∷ ps) (q ∷ qs) =
    IsPreopened host base_dir p q × ArePreopened host base_dir ps qs

module _ (host : HostEnv) where
  preopen_of-IsPreopened :
      (base_dir : List ℕ) (p : FsPreopen)
      → IsPreopened host base_dir p (preopen_of (host.join base_dir (codes p.path)) p)
  preopen_of-IsPreopened base_dir p = record {
    guest_path = refl;
    host_dir = refl;
    readable = readable p.mode;
    writable = writable p.mode;
  }
    where
      readable :
          (mode : FsPreopenMode) → ((perms_of mode).0.read ≡ true) × ((perms_of mode).1.read ≡ true)
      readable FsPreopenMode.ro = (refl, refl)
      readable FsPreopenMode.rw = (refl, refl)

      writable :
          (mode : FsPreopenMode)
          → ((mode ≡ FsPreopenMode.ro)
              × ((perms_of mode).0.mutate ≡ false)
              × ((perms_of mode).1.write ≡ false))
            ⊎ ((mode ≡ FsPreopenMode.rw)
                × ((perms_of mode).0.mutate ≡ true)
                × ((perms_of mode).1.write ≡ true))
      writable FsPreopenMode.ro = inl (refl, refl, refl)
      writable FsPreopenMode.rw = inr (refl, refl, refl)

  pub preopen_all-ArePreopened :
      (base_dir : List ℕ) (ps : List FsPreopen) (done : List Preopen)
      → preopen_all host base_dir ps ≡ ok done
      → ArePreopened host base_dir ps done
  unfolding preopen_all
  preopen_all-ArePreopened base_dir [] done h =
      subst (ArePreopened host base_dir []) (ok-injective h) tt
  preopen_all-ArePreopened base_dir (p ∷ ps) done h =
      let dir = host.join base_dir (codes p.path) in
      let (dir_perms, file_perms) = perms_of p.mode in
      elim (Bool-cases (host.preopened_dir dir p.path dir_perms file_perms)) [
        | inl e ↦
            let (rest, others, h') =
              bind-eq-ok (preopen_all host base_dir ps) (λ done. ok (preopen_of dir p ∷ done))
                (rw (preopen_all, e) at h) in
            subst (ArePreopened host base_dir (p ∷ ps)) (ok-injective h')
              (preopen_of-IsPreopened base_dir p, preopen_all-ArePreopened base_dir ps rest others)
        | inr e ↦ cc (rw (preopen_all, e) at h)
      ]
