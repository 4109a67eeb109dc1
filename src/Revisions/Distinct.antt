-- ===== src/Revisions/Distinct.antt =====
-- The revision texts of AviUtl2MCP.Bridge/src/revision_tracker.cpp behind commits and behind the loading of
-- other projects.
use aviutl2mcp.Common.{
  refl, sym, ap, ◌∙◌, subst, false, All, ℕ, suc, ◌+◌, ◌^◌, ◌<◌, ◌≡◌, ◌≢◌, ◌⊎◌, Bytes, length, List,
  [], ◌∷◌, ◌++◌, bytes_eq, eq_of-bytes_eq, bytes_eq_refl, ◌==◌, Bool-cases, inl, inr, arith, Result,
  ok, ◌>>=◌, >>=-eq-ok,
}
use aviutl2mcp.Platform.{Platform}
use aviutl2mcp.Revisions.{
  Tracker, reset_project, create_revision, to_string, content_revision, view_revision,
  matches_content, matches_view, commit_content_change, commit_view_change, commit_scene_change,
}
use aviutl2mcp.Revisions.Decimal.{to_string-injective}

append-cancel {ℓ} : {A : Type ℓ} (xs ys zs : List A) → xs ++ ys ≡ xs ++ zs → ys ≡ zs
append-cancel [] ys zs h = h
append-cancel (x ∷ xs) ys zs h = append-cancel xs ys zs (cc)

-- In one project generation different counters have different revision texts.
pub create_revision-injective :
    (t : Tracker) (i j : ℕ)
    → i < 2 ^ 64
    → j < 2 ^ 64
    → create_revision t i ≡ create_revision t j
    → i ≡ j
unfolding create_revision
create_revision-injective t i j hi hj h =
    let generation = append-cancel t.server_epoch _ _ h in
    let digits =
      append-cancel t.project_generation (b':' ∷ to_string i) (b':' ∷ to_string j) (cc) in
    to_string-injective i j hi hj (cc)

-- A change of the project: a commit of content, view or both, or another project, whose generation
-- `reset_project` is given.
pub data Change : Type 0 where
  content view scene : Change
  reset : (project_generation : Bytes) → Change

unfoldable pub commit : Platform → Change → Tracker → Result Tracker
commit platform content t = do (t', revision) ← commit_content_change t; ok t'
commit platform view t = do (t', revision) ← commit_view_change t; ok t'
commit platform scene t = do (t', revisions) ← commit_scene_change t; ok t'
commit platform (reset project_generation) t = reset_project platform project_generation t

unfoldable pub commit_all : Platform → List Change → Tracker → Result Tracker
commit_all platform [] t = ok t
commit_all platform (c ∷ cs) t = commit platform c t >>= commit_all platform cs

-- How often the content, and the view, have changed. Another project has another content and view.
abbrev pub content_changes : List Change → ℕ
content_changes [] = 0
content_changes (view ∷ cs) = content_changes cs
content_changes (_ ∷ cs) = suc (content_changes cs)

abbrev pub view_changes : List Change → ℕ
view_changes [] = 0
view_changes (content ∷ cs) = view_changes cs
view_changes (_ ∷ cs) = suc (view_changes cs)

-- A new project's generation is a UUID text of its own: as long as the one of `t`, but another.
abbrev pub IsFresh : Tracker → Change → Type 0
IsFresh t (reset project_generation) =
    (length project_generation ≡ length t.project_generation)
    × (project_generation ≢ t.project_generation)
IsFresh t _ = Unit

-- Same epoch and generation, counters that have gone up by these numbers, without a wrap.
record Advanced (t t' : Tracker) (by_content by_view : ℕ) : Type 0 where
  epoch : t'.server_epoch ≡ t.server_epoch
  generation : t'.project_generation ≡ t.project_generation
  content_count : t'.content_counter ≡ t.content_counter + by_content
  view_count : t'.view_counter ≡ t.view_counter + by_view
  content_fits : t'.content_counter < 2 ^ 64
  view_fits : t'.view_counter < 2 ^ 64

-- Same epoch, another project since.
record Replaced (t t' : Tracker) (by_content by_view : ℕ) : Type 0 where
  epoch : t'.server_epoch ≡ t.server_epoch
  as_long : length t'.project_generation ≡ length t.project_generation
  differs : t'.project_generation ≢ t.project_generation
  content_changed : 0 < by_content
  view_changed : 0 < by_view

Stands : (t t' : Tracker) (by_content by_view : ℕ) → Type 0
Stands t t' by_content by_view = Advanced t t' by_content by_view ⊎ Replaced t t' by_content by_view

-- The epoch is for ever, the generation for the project.
generation_behind : Change → Tracker → Bytes
generation_behind (reset project_generation) t = project_generation
generation_behind _ t = t.project_generation

commit-kept :
    (platform : Platform) (c : Change) (u v : Tracker)
    → commit platform c u ≡ ok v
    → (v.server_epoch ≡ u.server_epoch) × (v.project_generation ≡ generation_behind c u)
unfolding commit commit_content_change commit_view_change commit_scene_change reset_project
    generation_behind
commit-kept platform content u v h = (ground arith, ground arith)
commit-kept platform view u v h = (ground arith, ground arith)
commit-kept platform scene u v h = (ground arith, ground arith)
commit-kept platform (reset generation) u v h = (ground arith, ground arith)

Replaced-by :
    (t u v : Tracker) (m n : ℕ)
    → (v.server_epoch ≡ u.server_epoch) × (v.project_generation ≡ u.project_generation)
    → Replaced t u m n
    → (by_content by_view : ℕ) → Replaced t v (m + by_content) (n + by_view)
Replaced-by t u v m n (epoch, generation) r by_content by_view = record {
  epoch = epoch ∙ r.epoch;
  as_long = ap length generation ∙ r.as_long;
  differs = λ e. r.differs (sym generation ∙ e);
  content_changed = omega (arith, r.content_changed);
  view_changed = omega (arith, r.view_changed);
}

-- A new project replaces the old one, wherever the old one stood.
reset-Replaced :
    (t u v : Tracker) (generation : Bytes) (m n : ℕ)
    → u.server_epoch ≡ t.server_epoch
    → (v.server_epoch ≡ u.server_epoch) × (v.project_generation ≡ generation)
    → (length generation ≡ length t.project_generation) × (generation ≢ t.project_generation)
    → Replaced t v (m + 1) (n + 1)
reset-Replaced t u v generation m n before (epoch, same) (long, other) = record {
  epoch = epoch ∙ before;
  as_long = ap length same ∙ long;
  differs = λ e. other (sym same ∙ e);
  content_changed = omega arith;
  view_changed = omega arith;
}

commit-Stands :
    (platform : Platform) (c : Change) (t u v : Tracker) (m n : ℕ)
    → Stands t u m n
    → IsFresh t c
    → commit platform c u ≡ ok v
    → Stands t v (m + content_changes (c ∷ [])) (n + view_changes (c ∷ []))
unfolding Stands commit commit_content_change commit_view_change commit_scene_change
    generation_behind
commit-Stands platform content t u v m n (inl a) fresh h = inl (ground arith)
commit-Stands platform view t u v m n (inl a) fresh h = inl (ground arith)
commit-Stands platform scene t u v m n (inl a) fresh h = inl (ground arith)
commit-Stands platform (reset generation) t u v m n (inl a) fresh h = inr (
    reset-Replaced t u v generation m n a.epoch (commit-kept platform (reset generation) u v h)
      fresh)
commit-Stands platform content t u v m n (inr r) fresh h =
    inr (Replaced-by t u v m n (commit-kept platform content u v h) r 1 0)
commit-Stands platform view t u v m n (inr r) fresh h =
    inr (Replaced-by t u v m n (commit-kept platform view u v h) r 0 1)
commit-Stands platform scene t u v m n (inr r) fresh h =
    inr (Replaced-by t u v m n (commit-kept platform scene u v h) r 1 1)
commit-Stands platform (reset generation) t u v m n (inr r) fresh h = inr (
    reset-Replaced t u v generation m n r.epoch (commit-kept platform (reset generation) u v h)
      fresh)

content_changes-cons :
    (c : Change) (cs : List Change)
    → content_changes (c ∷ cs) ≡ content_changes (c ∷ []) + content_changes cs
content_changes-cons content cs = omega arith
content_changes-cons view cs = omega arith
content_changes-cons scene cs = omega arith
content_changes-cons (reset generation) cs = omega arith

view_changes-cons :
    (c : Change) (cs : List Change)
    → view_changes (c ∷ cs) ≡ view_changes (c ∷ []) + view_changes cs
view_changes-cons content cs = omega arith
view_changes-cons view cs = omega arith
view_changes-cons scene cs = omega arith
view_changes-cons (reset generation) cs = omega arith

counted : (t v : Tracker) {a b c d : ℕ} → a ≡ c → b ≡ d → Stands t v a b → Stands t v c d
counted t v {a} {b} {c} {d} e e' s =
    subst (λ (x : ℕ). Stands t v x d) e (subst (λ (y : ℕ). Stands t v a y) e' s)

commit_all-Stands :
    (platform : Platform) (cs : List Change) (t u v : Tracker) (m n : ℕ)
    → Stands t u m n
    → All (IsFresh t) cs
    → commit_all platform cs u ≡ ok v
    → Stands t v (m + content_changes cs) (n + view_changes cs)
unfolding commit_all
commit_all-Stands platform [] t u v m n s fresh h =
    let same : u ≡ v = cc in
    counted t v (omega arith) (omega arith) (subst (λ (w : Tracker). Stands t w m n) same s)
commit_all-Stands platform (c ∷ cs) t u v m n s (first, later) h =
    let (next, commits, rest) = >>=-eq-ok (commit platform c u) (commit_all platform cs) h in
    counted t v (omega (arith, content_changes-cons c cs)) (omega (arith, view_changes-cons c cs)) (
      commit_all-Stands platform cs t next v (m + content_changes (c ∷ []))
        (n + view_changes (c ∷ [])) (commit-Stands platform c t u next m n s first commits) later
        rest)

-- Texts of two projects differ, whatever their counters: the generations stand in the same place.
append-cancel_left :
    {A : Type 0} (xs ys us vs : List A) → length xs ≡ length ys → xs ++ us ≡ ys ++ vs → xs ≡ ys
append-cancel_left [] [] us vs n h = refl
append-cancel_left [] (y ∷ ys) us vs n h = absurd (ground (arith, n))
append-cancel_left (x ∷ xs) [] us vs n h = absurd (ground (arith, n))
append-cancel_left (x ∷ xs) (y ∷ ys) us vs n h =
    let heads : x ≡ y = cc in
    let tails : xs ≡ ys = append-cancel_left xs ys us vs (ground (arith, n)) (cc) in cc

text-other :
    (t t' : Tracker) (i j : ℕ)
    → t'.server_epoch ≡ t.server_epoch
    → length t'.project_generation ≡ length t.project_generation
    → t'.project_generation ≢ t.project_generation
    → bytes_eq (create_revision t i) (create_revision t' j) ≡ false
unfolding create_revision
text-other t t' i j epoch long differs =
    elim (Bool-cases (bytes_eq (create_revision t i) (create_revision t' j))) [
      | inr other ↦ other
      | inl equal ↦
          let same : create_revision t' j ≡ create_revision t i = sym (eq_of-bytes_eq _ _ equal) in
          let tails =
            append-cancel t.server_epoch (b':' ∷ (t'.project_generation ++ (b':' ∷ to_string j)))
              (b':' ∷ (t.project_generation ++ (b':' ∷ to_string i)))
              (subst
                (λ (e : Bytes).
                  e ++ (b':' ∷ (t'.project_generation ++ (b':' ∷ to_string j)))
                  ≡ t.server_epoch ++ (b':' ∷ (t.project_generation ++ (b':' ∷ to_string i))))
                epoch same) in
          let behind : t'.project_generation ++ (b':' ∷ to_string j)
              ≡ t.project_generation ++ (b':' ∷ to_string i) =
            cc in
          absurd (
            differs (append-cancel_left t'.project_generation t.project_generation _ _ long behind))
    ]

-- A text of `t` matches later exactly if the counter stands where it stood.
text-same :
    (t t' : Tracker) (i j added : ℕ)
    → t'.server_epoch ≡ t.server_epoch
    → t'.project_generation ≡ t.project_generation
    → j ≡ i + added
    → j < 2 ^ 64
    → bytes_eq (create_revision t i) (create_revision t' j) ≡ (added == 0)
text-same t t' i j added e g count fits =
    let same : create_revision t' j ≡ create_revision t j = unfold create_revision in cc in
    elim (Bool-cases (added == 0)) [
      | inl none ↦
          let i≡j : i ≡ j = ground arith in
          rw (same, none, ← i≡j) (bytes_eq_refl (create_revision t i))
      | inr some ↦ elim (Bool-cases (bytes_eq (create_revision t i) (create_revision t j))) [
        | inr differs ↦ rw (same, differs, some)
        | inl equal ↦
            let i≡j =
              create_revision-injective t i j (omega arith) fits (eq_of-bytes_eq _ _ equal) in
            absurd (ground (arith, i≡j))
      ]
    ]

-- A client's expected revision: take any changes that succeed, also the loading of other projects, each
-- with a generation as long as the first one's but different. Behind them a content revision text taken
-- before them matches exactly if none of them changed the content, and a view revision text exactly if
-- none changed the view.
pub matches_iff_unchanged :
    (platform : Platform) (cs : List Change) (t t' : Tracker)
    → t.content_counter < 2 ^ 64
    → t.view_counter < 2 ^ 64
    → All (IsFresh t) cs
    → commit_all platform cs t ≡ ok t'
    → (matches_content (content_revision t) t' ≡ (content_changes cs == 0))
      × (matches_view (view_revision t) t' ≡ (view_changes cs == 0))
unfolding matches_content matches_view content_revision view_revision Stands
matches_iff_unchanged platform cs t t' hc hv fresh h =
    let start : Advanced t t 0 0 = record {
      epoch = refl;
      generation = refl;
      content_count = omega arith;
      view_count = omega arith;
      content_fits = hc;
      view_fits = hv;
    } in
    elim (commit_all-Stands platform cs t t t' 0 0 (inl start) fresh h) [
      | inl a ↦ (
        text-same t t' t.content_counter t'.content_counter (content_changes cs) a.epoch
            a.generation (omega (arith, a.content_count)) a.content_fits,
        text-same t t' t.view_counter t'.view_counter (view_changes cs) a.epoch a.generation
            (omega (arith, a.view_count)) a.view_fits,
      )
      | inr r ↦ (
        text-other t t' t.content_counter t'.content_counter r.epoch r.as_long r.differs
            ∙ ground (arith, r.content_changed),
        text-other t t' t.view_counter t'.view_counter r.epoch r.as_long r.differs
            ∙ ground (arith, r.view_changed),
      )
    ]
