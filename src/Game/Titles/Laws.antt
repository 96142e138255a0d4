-- ===== src/Game/Titles/Laws.antt =====
-- What `updateTitles` does to the titles, and to nothing else.
use text.Mathlib.Text.{◌==◌ as text_eq}
use text.Mathlib.TextPositions.{eq_refl}
use neongrid.Base.{
  All, All-weaken, Bool, List, String, [], any, ap, arith, false, not, refl, sym, true, ◌++◌, ◌||◌,
  ◌∙◌, ◌∷◌, ◌≡◌,
}
use neongrid.Game.Data.{Player}
use neongrid.Game.Titles.{
  TitleRule, award, award_one, has_title, title_rules, top_rival, update_titles,
}

award_one-titles :
    (r : TitleRule) (p : Player)
    → (award_one r p).0 ≡ record p { titles = (award_one r p).0.titles }
unfolding award_one
award_one-titles r p = ground arith

-- Only the titles change.
pub award-titles :
    (rs : List TitleRule) (p : Player)
    → (award rs p).0 ≡ record p { titles = (award rs p).0.titles }
unfolding award
award-titles [] p = refl
award-titles (r ∷ rs) p =
    let q = (award_one r p).0 in
    award-titles rs q
    ∙ ap (λ (b : Player). record b { titles = (award rs q).0.titles }) (award_one-titles r p)

-- `updateTitles` changes the list of titles of a runner and nothing else about it.
pub update_titles_only :
    (p : Player) → (update_titles p).0 ≡ record p { titles = (update_titles p).0.titles }
unfolding update_titles
update_titles_only p = award-titles title_rules p

any-append_left :
    (title : String) (xs ys : List String)
    → any (λ x. text_eq x title) xs ≡ true
    → any (λ x. text_eq x title) (xs ++ ys) ≡ true
any-append_left title [] ys h = absurd (cc)
any-append_left title (x ∷ xs) ys h = ground (arith, any-append_left title xs ys)

any-append_last :
    (title : String) (xs : List String) → any (λ x. text_eq x title) (xs ++ title ∷ []) ≡ true
any-append_last title [] = simp eq_refl
any-append_last title (x ∷ xs) = ground (arith, any-append_last title xs)

award_one-keeps :
    (r : TitleRule) (p : Player) (title : String)
    → has_title p title ≡ true
    → has_title (award_one r p).0 title ≡ true
unfolding award_one has_title
award_one-keeps r p title h = ground (arith, any-append_left title p.titles (r.name ∷ []))

award-keeps :
    (rs : List TitleRule) (p : Player) (title : String)
    → has_title p title ≡ true
    → has_title (award rs p).0 title ≡ true
unfolding award
award-keeps [] p title h = h
award-keeps (r ∷ rs) p title h =
    award-keeps rs (award_one r p).0 title (award_one-keeps r p title h)

-- An earned title is never lost.
pub update_titles-keeps :
    (p : Player) (title : String)
    → has_title p title ≡ true
    → has_title (update_titles p).0 title ≡ true
unfolding update_titles
update_titles-keeps p title h = award-keeps title_rules p title h

award_one_earns :
    (r : TitleRule) (p : Player) → r.earned p ≡ true → has_title (award_one r p).0 r.name ≡ true
unfolding award_one has_title
award_one_earns r p h = ground (arith, any-append_last r.name p.titles)

-- A rule that does not look at the titles.
abbrev IgnoresTitles : TitleRule → Type 0
IgnoresTitles r = (p : Player) (ts : List String) → r.earned (record p { titles = ts }) ≡ r.earned p

title_rules-IgnoresTitles : All IgnoresTitles title_rules
unfolding title_rules top_rival
title_rules-IgnoresTitles = (
  λ p ts. refl,
  (
    λ p ts. refl,
    (
      λ p ts. refl,
      (
        λ p ts. refl,
        (
          λ p ts. refl,
          (
            λ p ts. refl,
            (
              λ p ts. refl,
              (
                λ p ts. refl,
                (
                  λ p ts. refl,
                  (
                    λ p ts. refl,
                    (
                      λ p ts. refl,
                      (
                        λ p ts. refl,
                        (
                          λ p ts. refl,
                          (
                            λ p ts. refl,
                            (λ p ts. refl, (λ p ts. refl, (λ p ts. refl, (λ p ts. refl, tt)))),
                          ),
                        ),
                      ),
                    ),
                  ),
                ),
              ),
            ),
          ),
        ),
      ),
    ),
  ),
)

award_complete :
    (rs : List TitleRule) (p : Player)
    → All IgnoresTitles rs
    → All (λ r. r.earned p ≡ true → has_title (award rs p).0 r.name ≡ true) rs
unfolding award
award_complete [] p blind = tt
award_complete (r ∷ rs) p blind =
    let q = (award_one r p).0 in
    let same : q ≡ record p { titles = q.titles } = award_one-titles r p in
    (
      λ earned. award-keeps rs q r.name (award_one_earns r p earned),
      All-weaken rs
          (λ (s : TitleRule) (b : IgnoresTitles s)
              (h : s.earned q ≡ true → has_title (award rs q).0 s.name ≡ true)
              (e : s.earned p ≡ true).
            h (ap s.earned same ∙ b p q.titles ∙ e))
          blind.1 (award_complete rs q blind.1),
    )

earned_or : (a b : Bool) → (a ≡ true → b ≡ true) → (not a || b) ≡ true
earned_or false b h = refl
earned_or true b h = h refl

-- After `updateTitles` a runner has every title that its level, Heat, district, counters and rivals earn.
pub update_titles_complete :
    (p : Player)
    → All (λ r. (not (r.earned p) || has_title (update_titles p).0 r.name) ≡ true) title_rules
unfolding update_titles
update_titles_complete p =
    let done = award_complete title_rules p title_rules-IgnoresTitles in
    All-weaken title_rules (λ (r : TitleRule) _ h. earned_or (r.earned p) _ h) done done

award_one_again :
    (r : TitleRule) (p : Player)
    → (r.earned p ≡ true → has_title p r.name ≡ true)
    → award_one r p ≡ (p, [])
unfolding award_one
award_one_again r p h = ground arith

award_again :
    (rs : List TitleRule) (p : Player)
    → All (λ r. r.earned p ≡ true → has_title p r.name ≡ true) rs
    → award rs p ≡ (p, [])
unfolding award
award_again [] p h = refl
award_again (r ∷ rs) p h = rw (award_one_again r p h.0, award_again rs p h.1)

earned_blind :
    (rs : List TitleRule) (p q : Player)
    → q ≡ record p { titles = q.titles }
    → All IgnoresTitles rs
    → All (λ r. r.earned p ≡ true → has_title q r.name ≡ true) rs
    → All (λ r. r.earned q ≡ true → has_title q r.name ≡ true) rs
earned_blind rs p q same blind h =
    All-weaken rs
      (λ (r : TitleRule) (b : IgnoresTitles r) (k : r.earned p ≡ true → has_title q r.name ≡ true)
          (e : r.earned q ≡ true).
        k (sym (ap r.earned same ∙ b p q.titles) ∙ e))
      blind h

-- Awarding titles twice in a row changes nothing more and announces nothing more.
pub update_titles_idem :
    (p : Player) → update_titles (update_titles p).0 ≡ ((update_titles p).0, [])
unfolding update_titles
update_titles_idem p = award_again title_rules (award title_rules p).0 (
    earned_blind title_rules p (award title_rules p).0 (award-titles title_rules p)
      title_rules-IgnoresTitles (award_complete title_rules p title_rules-IgnoresTitles))
