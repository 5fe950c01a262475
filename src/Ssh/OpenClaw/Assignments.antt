-- ===== src/Ssh/OpenClaw/Assignments.antt =====
-- pkg/bridge/ssh/openclaw/grammar.go: the loop over the environment accepts what `Environment` says.
use aries.Base.{
  Bool, false, ◌&&◌, not, List, [], ◌∷◌, ◌++◌, map, Bytes, codes, bytes_eq, Result, ok, err, All,
  All-weaken, All-combine, ◌≡◌, ◌≢◌, refl, sym, ap, ap₂, ◌∙◌, ◌⊎◌, inl, inr, arith, Bool-cases,
  bytes_eq_iff, bytes_eq_self,
}
use aries.Ssh.OpenClaw.{
  Error, remote_shell, open_claw_shell, split_assignment, is_seen, check_split, assignments,
}
use aries.Ssh.OpenClaw.Environment.{
  spell, Environment, Passes, split_complete, spelled-ne-shell, is_seen_iff, check_split_sound,
  check_split_complete,
}

abbrev Fresh : List Bytes → Bytes × Bytes → Type 0
Fresh seen p = is_seen p.0 seen ≡ false

abbrev pub AtShell : List Bytes → Type 0
AtShell rest = (rest ≡ []) ⊎ ((r : List Bytes) × (rest ≡ remote_shell ∷ r))

-- The assignments that the loop passed, and what it stopped at.
abbrev Passed : List Bytes → Bool → List Bytes → List Bytes → List (Bytes × Bytes) → Type 0
Passed seen saw ts rest ps =
    (ts ≡ map spell ps ++ rest)
    × Environment ps
    × All (Fresh seen) ps
    × ((saw ≡ false) ⊎ (ps ≡ []))
    × AtShell rest

head_last :
    (m v : Bytes) (ps : List (Bytes × Bytes))
    → (bytes_eq m open_claw_shell && not (bytes_eq v (codes "exec"))) ≡ false
    → (bytes_eq m open_claw_shell ≡ false) ⊎ (ps ≡ [])
    → (m ≢ open_claw_shell) ⊎ ((v ≡ codes "exec") × (ps ≡ []))
head_last m v ps allowed last = elim (Bool-cases (bytes_eq m open_claw_shell)) [
  | inr other ↦ inl (λ e. absurd (ground (arith, other, (bytes_eq_iff m open_claw_shell).1 e)))
  | inl is_shell ↦ elim last [
    | inl other ↦ absurd (ground (arith, other, is_shell))
    | inr none_left ↦
        inr ((bytes_eq_iff v (codes "exec")).0 (ground (arith, is_shell, allowed)), none_left)
  ]
]

head_allowed :
    (m v : Bytes) (ps : List (Bytes × Bytes))
    → (m ≢ open_claw_shell) ⊎ ((v ≡ codes "exec") × (ps ≡ []))
    → ((bytes_eq m open_claw_shell && not (bytes_eq v (codes "exec"))) ≡ false)
      × ((bytes_eq m open_claw_shell ≡ false) ⊎ (ps ≡ []))
head_allowed m v ps (inl other) = elim (Bool-cases (bytes_eq m open_claw_shell)) [
  | inl equal ↦ absurd (other ((bytes_eq_iff m open_claw_shell).0 equal))
  | inr differs ↦ (ground (arith, differs), inl differs)
]
head_allowed m v ps (inr (exec, none_left)) =
    (ground (arith, (bytes_eq_iff v (codes "exec")).1 exec), inr none_left)

Result-cases :
    {A : Type 0} (r : Result Error A) → ((e : Error) × (r ≡ err e)) ⊎ ((a : A) × (r ≡ ok a))
Result-cases (err e) = inl (e, refl)
Result-cases (ok a) = inr (a, refl)

Passed-head :
    (seen : List Bytes) (saw : Bool) (t m v : Bytes) (ts rest : List Bytes)
    (ps : List (Bytes × Bytes))
    → t ≡ spell (m, v)
    → Passes seen saw m v
    → Passed (m ∷ seen) (bytes_eq m open_claw_shell) ts rest ps
    → Passed seen saw (t ∷ ts) rest ((m, v) ∷ ps)
Passed-head seen saw t m v ts rest ps spelled (valid, open_still, unseen, allowed)
      (split, (valids, distinct, last), fresh, end, stop) =
    (
      ap₂ (λ x xs. x ∷ xs) spelled split,
      (
        (valid, valids),
        (All-weaken (λ q h. ((is_seen_iff q.0 m seen).0 h).0) ps fresh, distinct),
        (head_last m v ps allowed end, last),
      ),
      (unseen, All-weaken (λ q h. ((is_seen_iff q.0 m seen).0 h).1) ps fresh),
      inl open_still,
      stop,
    )

pub assignments_sound :
    (seen : List Bytes) (saw : Bool) (ts rest : List Bytes)
    → assignments seen saw ts ≡ ok rest
    → (ps : List (Bytes × Bytes)) × Passed seen saw ts rest ps
unfolding assignments
assignments_sound seen saw [] rest h =
    ([], (ground (arith, h), (tt, refl, refl), tt, inr refl, inl (ground (arith, h))))
assignments_sound seen saw (t ∷ ts) rest h = elim (Bool-cases (bytes_eq t remote_shell)) [
  | inl shell ↦
      let stops : t ∷ ts ≡ rest = ground (arith, shell, h) in
      (
        [],
        (
          stops,
          (tt, refl, refl),
          tt,
          inr refl,
          inr (ts, sym stops ∙ ap (λ x. x ∷ ts) ((bytes_eq_iff t remote_shell).0 shell)),
        ),
      )
  | inr other ↦ elim (Result-cases (check_split seen saw (split_assignment t))) [
    | inl (e, failed) ↦ absurd (ground (arith, other, failed, h))
    | inr (m, passed) ↦
        let (v, spelled, passes) = check_split_sound seen saw t m passed in
        let (ps, more) =
          assignments_sound (m ∷ seen) (bytes_eq m open_claw_shell) ts rest
            (ground (arith, other, passed, h)) in
        ((m, v) ∷ ps, Passed-head seen saw t m v ts rest ps spelled passes more)
  ]
]

head_open :
    (saw : Bool) (m v : Bytes) (ps : List (Bytes × Bytes))
    → (saw ≡ false) ⊎ ((m, v) ∷ ps ≡ [])
    → saw ≡ false
head_open saw m v ps (inl h) = h
head_open saw m v ps (inr h) = cc

pub assignments_complete :
    (seen : List Bytes) (saw : Bool) (ps : List (Bytes × Bytes)) (rest : List Bytes)
    → Environment ps
    → All (Fresh seen) ps
    → (saw ≡ false) ⊎ (ps ≡ [])
    → assignments seen saw (map spell ps ++ remote_shell ∷ rest) ≡ ok (remote_shell ∷ rest)
unfolding assignments
assignments_complete seen saw [] rest env fresh end = ground (arith, bytes_eq_self remote_shell)
assignments_complete seen saw ((m, v) ∷ ps) rest ((valid, valids), (apart, distinct), (head, last))
      (unseen, fresh) end =
    let (allowed, end') = head_allowed m v ps head in
    let passed =
      ap (check_split seen saw) (split_complete m v valid)
      ∙ check_split_complete seen saw m v (valid, head_open saw m v ps end, unseen, allowed) in
    let rest_ok =
      assignments_complete (m ∷ seen) (bytes_eq m open_claw_shell) ps rest (valids, distinct, last)
        (All-combine (λ q a b. (is_seen_iff q.0 m seen).1 (a, b)) ps apart fresh) end' in
    ground (arith, spelled-ne-shell m v valid, passed, rest_ok)
