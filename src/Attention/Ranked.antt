-- ===== src/Attention/Ranked.antt =====
-- What rank_importance_fn of packs/attention/tools.py selects.
use activegraph_packs.Base.{
  ℕ, ◌+◌, ◌-◌, ◌≤◌, String, Bool, true, false, not, ◌||◌, Option, some, List, [], ◌∷◌, ◌++◌, ◌≡◌,
  ◌⊎◌, refl, sym, ap, ◌∙◌, subst, arith, count, length, take, drop, take-drop, length-take, ltb,
  ◌==◌, Bool-cases, inl, inr, text_leb, sort_by, Ordered, Ordered-sort_by, count-sort_by,
  length-sort_by,
}
use activegraph_packs.Attention.{AttentionItem}
use activegraph_packs.Attention.Ranking.{
  RankContext, Importance, RankAnswer, is_unranked, distinct_refs, rows_of, select, ranks_before,
  rank_importance,
}

-- The second row has no higher score.
abbrev ScoresDown : Importance → Importance → Type 0
ScoresDown a b = b.score_milli ≤ a.score_milli

-- No later row has a higher score.
abbrev pub Descending : List Importance → Type 0
Descending rs = Ordered ScoresDown rs

ranks_before-true : (a b : Importance) → ranks_before a b ≡ true → b.score_milli ≤ a.score_milli
ranks_before-true a b h = elim (Bool-cases (a.score_milli == b.score_milli)) [
  | inl e ↦ ground (arith, e)
  | inr e ↦ ground (arith, e, h)
]

ranks_before-false : (a b : Importance) → ranks_before a b ≡ false → a.score_milli ≤ b.score_milli
ranks_before-false a b h = elim (Bool-cases (a.score_milli == b.score_milli)) [
  | inl e ↦ ground (arith, e)
  | inr e ↦ ground (arith, e, h)
]

Descending-sort_by : (rs : List Importance) → Descending (sort_by ranks_before rs)
Descending-sort_by rs =
    Ordered-sort_by ScoresDown ranks_before ranks_before-true ranks_before-false
      (λ x y z h k. omega (arith, h, k)) rs

length-select : (p : Importance → Bool) (rs : List Importance) → length (select p rs) ≡ count p rs
length-select p [] = refl
length-select p (r ∷ rs) = ground (arith, length-select p rs)

-- The rows of the references that are asked for.
abbrev pub asked : List (ℕ × AttentionItem) → RankContext → List String → List Importance
asked m c refs = rows_of m c (distinct_refs [] refs)

pub record Selected (rows : List Importance) (limit slots : ℕ) (r : RankAnswer) : Type 0 where
  pub within_limit : length r.importance + length r.exploration ≤ limit
  pub explored : length r.exploration ≤ slots
  -- the reserve is used up, or every unranked subject is taken
  pub reserve : (length r.exploration ≡ slots) ⊎ (length r.exploration ≡ count is_unranked rows)
  -- the ranked rows that are left out
  pub left_out : List Importance
  pub descending : Descending (r.importance ++ left_out)
  pub all_ranked :
      (p : Importance → Bool)
      → count p (r.importance ++ left_out) ≡ count p (select (λ x. not (is_unranked x)) rows)

same_rank : (a b : RankAnswer) → ◌≡◌ {A = Option RankAnswer} (some a) (some b) → a ≡ b
same_rank a b h = ground (arith, h)

-- Where rank_importance_fn answers: at most `limit` rows, of which at most `exploration_slots` are
-- exploration, and just as many unless there are fewer unranked subjects; the rows of importance are
-- the ranked ones by descending score up to those left out, none of which has a higher score.
pub rank_importance_selects :
    (digest : RankContext → String → String) (m : List (ℕ × AttentionItem)) (refs : List String)
    (c : RankContext) (limit slots : ℕ) (r : RankAnswer)
    → rank_importance digest m refs c limit slots ≡ some r
    → Selected (asked m c refs) limit slots r
unfolding rank_importance
rank_importance_selects digest m refs c limit slots r =
    let rows = asked m c refs in
    let chosen = select (λ x. not (is_unranked x)) rows in
    let ranked = sort_by ranks_before chosen in
    let f = λ (a b : Importance). text_leb (digest c a.subject_ref) (digest c b.subject_ref) in
    let others = sort_by f (select is_unranked rows) in
    let explore = take slots others in
    let n = limit - length explore in
    let (few, short, exact) = length-take slots others in
    let (low, short_ranked, exact_ranked) = length-take n ranked in
    let number = length-sort_by f (select is_unranked rows) ∙ length-select is_unranked rows in
    elim (Bool-cases (ltb limit 1 || ltb limit slots)) [
      | inl e ↦ rw e (λ h. ground (arith, h))
      | inr e ↦
          let enough : slots ≤ limit = ground (arith, e) in
          let there : Selected rows limit slots record {
            importance = take n ranked;
            exploration = explore;
            considered = length rows;
          } =
            record {
              within_limit = omega (arith, few, low, enough);
              explored = few;
              reserve = elim exact [ inl x ↦ inl x | inr x ↦ inr (x ∙ number) ];
              left_out = drop n ranked;
              descending =
                  subst (λ x. Descending x) (sym (take-drop n ranked)) (Descending-sort_by chosen);
              all_ranked =
                  λ p. ap (count p) (take-drop n ranked) ∙ count-sort_by p ranks_before chosen;
            } in
          rw e (λ h. subst (λ x. Selected rows limit slots x) (same_rank _ r h) there)
    ]
