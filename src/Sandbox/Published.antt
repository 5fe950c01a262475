-- ===== src/Sandbox/Published.antt =====
-- pkg/sandbox/sandbox.go: what a download leaves at its destination.
use aries.Base.{
  ℕ, ℤ, pos, false, List, [], ◌∷◌, ◌++◌, Option, none, some, Bytes, codes, bytes_eq, bytes_eq_iff,
  bytes_eq_self, length, ◌≡◌, refl, sym, ap, ap₂, ◌∙◌, arith, inl, inr, Bool-cases,
}
use aries.Core.Errors.{GoError, wrapped}
use aries.Sandbox.Transfer.{
  ArchiveEntry, Disk, ups, relative_elements, leaves, exceeds, give_up, publish_temp, secure,
  write_temp, save_entry,
}

-- A path strictly below another one, by their elements.
abbrev pub Below : List Bytes → List Bytes → Type 0
Below base target = (c : Bytes) × (cs : List Bytes) × (target ≡ base ++ c ∷ cs)

pub relative_elements-Below :
    (base target : List Bytes) → leaves (relative_elements base target) ≡ false → Below base target
unfolding relative_elements ups leaves
relative_elements-Below [] [] h = cc
relative_elements-Below [] (c ∷ cs) h = (c, cs, refl)
relative_elements-Below (b ∷ base) [] h = absurd (ground (arith, h, bytes_eq_self (codes "..")))
relative_elements-Below (b ∷ base) (t ∷ target) h = elim (Bool-cases (bytes_eq b t)) [
  | inr other ↦ absurd (ground (arith, other, h, bytes_eq_self (codes "..")))
  | inl equal ↦
      let (c, cs, eq) = relative_elements-Below base target (ground (arith, equal, h)) in
      (c, cs, ap₂ (λ x xs. x ∷ xs) (sym ((bytes_eq_iff b t).0 equal)) eq)
]

-- What the file system promises of the temporary file, whose content is `staged`, and of the file
-- at the destination: only a Rename that succeeds changes that, and it moves the content there; and
-- CopyN without an error copied that many bytes.
pub record Atomic {W : Type 0} (disk : Disk W) (target : Bytes) (kept : W → Option Bytes)
    (staged : W → Bytes) : Type 0 where
  pub download_kept : (id path : Bytes) (w : W) → kept (disk.download_archive id path w).0 ≡ kept w
  pub parent_kept : (path : Bytes) (w : W) → kept (disk.make_parent path w).0 ≡ kept w
  pub temp_kept : (path : Bytes) (w : W) → kept (disk.create_temp path w).0 ≡ kept w
  pub copy_kept : (n : ℤ) (content : Bytes) (w : W) → kept (disk.copy_n n content w).0 ≡ kept w
  pub chmod_kept : (w : W) → kept (disk.chmod w).0 ≡ kept w
  pub close_kept : (w : W) → kept (disk.close_temp w).0 ≡ kept w
  pub remove_kept : (w : W) → kept (disk.remove_temp w) ≡ kept w
  pub rename_fails :
      (e : GoError) (w : W)
      → (disk.rename target w).1 ≡ some e
      → kept (disk.rename target w).0 ≡ kept w
  pub rename_moves :
      (w : W) → (disk.rename target w).1 ≡ none → kept (disk.rename target w).0 ≡ some (staged w)
  pub copy_stages :
      (n : ℤ) (content : Bytes) (w : W)
      → (disk.copy_n n content w).1 ≡ none
      → pos (length (staged (disk.copy_n n content w).0)) ≡ n
  pub chmod_staged : (w : W) → staged (disk.chmod w).0 ≡ staged w
  pub close_staged : (w : W) → staged (disk.close_temp w).0 ≡ staged w

module _ {W : Type 0} (disk : Disk W) (target : Bytes) (kept : W → Option Bytes)
    (staged : W → Bytes) (atomic : Atomic disk target kept staged) where
  -- A download from `w`: without an error the destination holds a file within the limit; with one,
  -- it is as it was.
  abbrev pub IsPublished : Option ℕ → W → W × Option GoError → Type 0
  IsPublished limit w (w', none) =
      (bytes : Bytes) × (kept w' ≡ some bytes) × (exceeds (pos (length bytes)) limit ≡ false)
  IsPublished limit w (w', some e) = kept w' ≡ kept w

  give_up-IsPublished :
      (limit : Option ℕ) (w w1 : W) (e : GoError)
      → kept w1 ≡ kept w
      → IsPublished limit w (give_up disk e w1)
  give_up-IsPublished limit w w1 e same = atomic.remove_kept w1 ∙ same

  publish_temp-IsPublished :
      (limit : Option ℕ) (w w1 : W)
      → kept w1 ≡ kept w
      → exceeds (pos (length (staged w1))) limit ≡ false
      → IsPublished limit w (publish_temp disk target w1)
  publish_temp-IsPublished limit w w1 same fits =
      unfold publish_temp in each (disk.rename target w1).1 refl
    where
      w2 : W
      w2 = (disk.rename target w1).0

      each :
          (failure : Option GoError)
          → (disk.rename target w1).1 ≡ failure
          → IsPublished limit w (elim failure [
            | some e ↦ give_up disk (wrapped "publish deployment download" e) w2
            | none ↦ (disk.remove_temp w2, none)
          ])
      each (some e) eq =
          give_up-IsPublished limit w w2 (wrapped "publish deployment download" e)
            (atomic.rename_fails e w1 eq ∙ same)
      each none eq = (staged w1, atomic.remove_kept w2 ∙ atomic.rename_moves w1 eq, fits)

  secure-IsPublished :
      (limit : Option ℕ) (w w1 : W)
      → kept w1 ≡ kept w
      → exceeds (pos (length (staged w1))) limit ≡ false
      → IsPublished limit w (secure disk target w1)
  secure-IsPublished limit w w1 same fits =
      unfold secure in each (disk.chmod w1).1 (disk.close_temp w2).1
    where
      w2 : W
      w2 = (disk.chmod w1).0

      w3 : W
      w3 = (disk.close_temp w2).0

      still : kept w3 ≡ kept w
      still = atomic.close_kept w2 ∙ (atomic.chmod_kept w1 ∙ same)

      still_fits : exceeds (pos (length (staged w3))) limit ≡ false
      still_fits =
          ap (λ bytes. exceeds (pos (length bytes)) limit)
            (atomic.close_staged w2 ∙ atomic.chmod_staged w1)
          ∙ fits

      each :
          (open_to_all unclosed : Option GoError)
          → IsPublished limit w (elim open_to_all [
            | some e ↦ give_up disk (wrapped "secure deployment download" e) w3
            | none ↦ elim unclosed [
              | some e ↦ give_up disk (wrapped "close deployment download" e) w3
              | none ↦ publish_temp disk target w3
            ]
          ])
      each (some e) unclosed =
          give_up-IsPublished limit w w3 (wrapped "secure deployment download" e) still
      each none (some e) =
          give_up-IsPublished limit w w3 (wrapped "close deployment download" e) still
      each none none = publish_temp-IsPublished limit w w3 still still_fits

  write_temp-IsPublished :
      (limit : Option ℕ) (entry : ArchiveEntry) (w w1 : W)
      → kept w1 ≡ kept w
      → exceeds entry.size limit ≡ false
      → IsPublished limit w (write_temp disk entry target w1)
  write_temp-IsPublished limit entry w w1 same fits =
      unfold write_temp in each (disk.copy_n entry.size entry.content w1).1 refl
    where
      w2 : W
      w2 = (disk.copy_n entry.size entry.content w1).0

      still : kept w2 ≡ kept w
      still = atomic.copy_kept entry.size entry.content w1 ∙ same

      each :
          (failure : Option GoError)
          → (disk.copy_n entry.size entry.content w1).1 ≡ failure
          → IsPublished limit w (elim failure [
            | some e ↦ give_up disk (wrapped "write deployment download" e) (disk.close_temp w2).0
            | none ↦ secure disk target w2
          ])
      each (some e) eq =
          give_up-IsPublished limit w (disk.close_temp w2).0 (wrapped "write deployment download" e)
            (atomic.close_kept w2 ∙ still)
      each none eq = secure-IsPublished limit w w2 still (
          ap (λ size. exceeds size limit) (atomic.copy_stages entry.size entry.content w1 eq)
          ∙ fits)

  pub save_entry-IsPublished :
      (limit : Option ℕ) (entry : ArchiveEntry) (w w1 : W)
      → kept w1 ≡ kept w
      → exceeds entry.size limit ≡ false
      → IsPublished limit w (save_entry disk entry target w1)
  save_entry-IsPublished limit entry w w1 same fits =
      unfold save_entry in each (disk.make_parent target w1).1 (disk.create_temp target w2).1
    where
      w2 : W
      w2 = (disk.make_parent target w1).0

      w3 : W
      w3 = (disk.create_temp target w2).0

      still : kept w2 ≡ kept w
      still = atomic.parent_kept target w1 ∙ same

      each :
          (no_dir no_temp : Option GoError)
          → IsPublished limit w (elim no_dir [
            | some e ↦ (w2, some (wrapped "create deployment download directory" e))
            | none ↦ elim no_temp [
              | some e ↦ (w3, some (wrapped "create deployment download destination" e))
              | none ↦ write_temp disk entry target w3
            ]
          ])
      each (some e) no_temp = still
      each none (some e) = atomic.temp_kept target w2 ∙ still
      each none none =
          write_temp-IsPublished limit entry w w3 (atomic.temp_kept target w2 ∙ still) fits
