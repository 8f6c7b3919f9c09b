-- ===== src/LogProcessor/Counted.antt =====
-- The groups of a summary: each log is counted once, under its line and its stretch of time.
use ai_devops_copilot.Base.{
  ℕ, suc, ◌+◌, ◌≤◌, ◌≡◌, refl, ap, ◌∙◌, inl, inr, String, ◌==◌, Bool, true, false, List, [], ◌∷◌,
  Bool-cases, eqb, max, eq_iff, if◌then◌else◌, arith,
}
use ai_devops_copilot.LogProcessor.{Log, Texts}
use ai_devops_copilot.LogProcessor.Summary.{
  Group, is_alike, add_line, stretch_of, to_readable, group_from,
}

unfoldable pub one_if : Bool → ℕ
one_if b = if b then 1 else 0

one_if-le : (b : Bool) → one_if b ≤ 1
unfolding one_if
one_if-le true = omega arith
one_if-le false = omega arith

-- how many lines the groups count for a line and a stretch
unfoldable pub counted : String → ℕ → List Group → ℕ
counted line bucket [] = 0
counted line bucket ((other, stretch, n) ∷ groups) =
    let rest = counted line bucket groups in
    if is_alike line bucket other stretch then n + rest else rest

-- how many groups there are for a line and a stretch
unfoldable pub groups_alike : String → ℕ → List Group → ℕ
groups_alike line bucket [] = 0
groups_alike line bucket ((other, stretch, n) ∷ groups) =
    let rest = groups_alike line bucket groups in
    if is_alike line bucket other stretch then suc rest else rest

-- how many logs read so and fall into the stretch
unfoldable pub logs_alike : Texts → ℕ → String → ℕ → List Log → ℕ
unfolding one_if stretch_of
logs_alike texts bucket_seconds line bucket [] = 0
logs_alike texts bucket_seconds line bucket (log ∷ logs) =
    one_if (
      is_alike line bucket (to_readable texts log)
        (stretch_of bucket_seconds (texts.parse_ts log.timestamp)))
    + logs_alike texts bucket_seconds line bucket logs

is_alike-same :
    (line other : String) (bucket stretch : ℕ)
    → is_alike line bucket other stretch ≡ true
    → (other ≡ line) × (stretch ≡ bucket)
unfolding is_alike
is_alike-same line other bucket stretch h = elim (Bool-cases (other == line)) [
  | inl e ↦ let rest : eqb stretch bucket ≡ true = ground arith in ((eq_iff _ _).0 e, ground arith)
  | inr e ↦ ground arith
]

-- a group with the key of a line answers as that line does
is_alike-moved :
    (line line' other : String) (bucket bucket' stretch : ℕ)
    → is_alike line' bucket' other stretch ≡ true
    → is_alike line bucket other stretch ≡ is_alike line bucket line' bucket'
is_alike-moved line line' other bucket bucket' stretch h =
    let (same, at) = is_alike-same line' other bucket' stretch h in
    ap (λ o. is_alike line bucket o stretch) same ∙ ap (is_alike line bucket line') at

-- a group that has the first key and not the second tells the two apart
is_alike-apart :
    (line line' other : String) (bucket bucket' stretch : ℕ)
    → is_alike line bucket other stretch ≡ true
    → is_alike line' bucket' other stretch ≡ false
    → is_alike line bucket line' bucket' ≡ false
is_alike-apart line line' other bucket bucket' stretch h h' =
    elim (Bool-cases (is_alike line bucket line' bucket')) [
      | inl e ↦
          let (same, at) = is_alike-same line line' bucket bucket' e in
          let moved =
            ap (λ l. is_alike l bucket' other stretch) same
            ∙ ap (λ b. is_alike line b other stretch) at in
          ground arith
      | inr e ↦ e
    ]

counted-add_line :
    (line : String) (bucket : ℕ) (line' : String) (bucket' : ℕ) (groups : List Group)
    → counted line bucket (add_line line' bucket' groups)
      ≡ one_if (is_alike line bucket line' bucket') + counted line bucket groups
unfolding counted add_line one_if
counted-add_line line bucket line' bucket' [] =
    elim (Bool-cases (is_alike line bucket line' bucket')) [ inl e ↦ rw e refl | inr e ↦ rw e refl ]
counted-add_line line bucket line' bucket' ((other, stretch, n) ∷ groups) =
    let rest = counted-add_line line bucket line' bucket' groups in
    elim (Bool-cases (is_alike line' bucket' other stretch)) [
      | inl e ↦
          let moved = is_alike-moved line line' other bucket bucket' stretch e in
          elim (Bool-cases (is_alike line bucket line' bucket')) [
            | inl f ↦ rw e (rw moved (rw f (omega arith)))
            | inr f ↦ rw e (rw moved (rw f (omega arith)))
          ]
      | inr e ↦ elim (Bool-cases (is_alike line bucket other stretch)) [
        | inl f ↦ rw e (rw f (omega (arith, rest)))
        | inr f ↦ rw e (rw f rest)
      ]
    ]

-- a line that has a group is added to it; any other gets one of its own
groups_alike-add_line :
    (line : String) (bucket : ℕ) (line' : String) (bucket' : ℕ) (groups : List Group)
    → groups_alike line bucket (add_line line' bucket' groups)
      ≡ max (one_if (is_alike line bucket line' bucket')) (groups_alike line bucket groups)
unfolding groups_alike add_line one_if
groups_alike-add_line line bucket line' bucket' [] =
    elim (Bool-cases (is_alike line bucket line' bucket')) [ inl e ↦ rw e refl | inr e ↦ rw e refl ]
groups_alike-add_line line bucket line' bucket' ((other, stretch, n) ∷ groups) =
    let rest = groups_alike-add_line line bucket line' bucket' groups in
    elim (Bool-cases (is_alike line' bucket' other stretch)) [
      | inl e ↦
          let moved = is_alike-moved line line' other bucket bucket' stretch e in
          elim (Bool-cases (is_alike line bucket line' bucket')) [
            | inl f ↦ rw e (rw moved (rw f (omega arith)))
            | inr f ↦ rw e (rw moved (rw f (omega arith)))
          ]
      | inr e ↦ elim (Bool-cases (is_alike line bucket other stretch)) [
        | inl f ↦
            let apart = is_alike-apart line line' other bucket bucket' stretch f e in
            rw e (rw f (rw apart (omega (arith, ap one_if apart, rest))))
        | inr f ↦ rw e (rw f rest)
      ]
    ]

group_from-counted :
    (texts : Texts) (bucket_seconds : ℕ) (line : String) (bucket : ℕ) (groups : List Group)
    (logs : List Log)
    → counted line bucket (group_from texts bucket_seconds groups logs)
      ≡ logs_alike texts bucket_seconds line bucket logs + counted line bucket groups
unfolding group_from logs_alike
group_from-counted texts bucket_seconds line bucket groups [] = omega arith
group_from-counted texts bucket_seconds line bucket groups (log ∷ logs) =
    let line' = to_readable texts log in
    let bucket' = stretch_of bucket_seconds (texts.parse_ts log.timestamp) in
    let rest =
      group_from-counted texts bucket_seconds line bucket (add_line line' bucket' groups) logs in
    let added = counted-add_line line bucket line' bucket' groups in omega (arith, rest, added)

group_from-groups_alike :
    (texts : Texts) (bucket_seconds : ℕ) (line : String) (bucket : ℕ) (groups : List Group)
    (logs : List Log)
    → groups_alike line bucket groups ≤ 1
    → groups_alike line bucket (group_from texts bucket_seconds groups logs) ≤ 1
unfolding group_from
group_from-groups_alike texts bucket_seconds line bucket groups [] h = h
group_from-groups_alike texts bucket_seconds line bucket groups (log ∷ logs) h =
    let line' = to_readable texts log in
    let bucket' = stretch_of bucket_seconds (texts.parse_ts log.timestamp) in
    let alike = is_alike line bucket line' bucket' in
    let added = groups_alike-add_line line bucket line' bucket' groups in
    group_from-groups_alike texts bucket_seconds line bucket (add_line line' bucket' groups) logs
      (rw added (omega (arith, h, one_if-le alike)))

-- For each readable line and each stretch of time, the groups have one entry at most, and the number
-- that they give is that of the logs that read so and fall into that stretch: no log is lost by the
-- deduplication or counted twice.
pub group_from-Counted :
    (texts : Texts) (bucket_seconds : ℕ) (logs : List Log) (line : String) (bucket : ℕ)
    → let groups = group_from texts bucket_seconds [] logs in
      (counted line bucket groups ≡ logs_alike texts bucket_seconds line bucket logs)
      × (groups_alike line bucket groups ≤ 1)
unfolding counted groups_alike
group_from-Counted texts bucket_seconds logs line bucket =
    let sum = group_from-counted texts bucket_seconds line bucket [] logs in
    (
      omega (arith, sum),
      group_from-groups_alike texts bucket_seconds line bucket [] logs (omega arith),
    )
