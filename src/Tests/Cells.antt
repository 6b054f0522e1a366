-- ===== src/Tests/Cells.antt =====
-- An API server that has room for one object of a kind.
use agentcube.Prelude.{
  String, ◌≡◌, refl, Bool, ◌&&◌, Option-cases, inl, inr, Option, none, some, arith, ◌==◌, ==_self,
  if◌then◌else◌,
}
use agentcube.Errors.{status, not_found, already_exists, ok, err}
use agentcube.Controller.Objects.{Crud, IsCrud, IsFrame}

module _ {W A : Type 0} (cell : W → Option A) (put : Option A → W → W)
    (namespace_of name_of : A → String)
    (cell-put : (o : Option A) (w : W) → cell (put o w) ≡ o) where
  abbrev is_at : String → String → A → Bool
  is_at ns n a = namespace_of a == ns && name_of a == n

  unfoldable pub held : W → String → String → Option A
  held w ns n = elim (cell w) [ none ↦ none | some a ↦ if is_at ns n a then some a else none ]

  unfoldable pub cells : Crud W A
  cells = record {
    get = λ ns n w. (elim (held w ns n) [ some a ↦ ok a | none ↦ err (status not_found "") ], w);
    create = λ a w. elim (held w (namespace_of a) (name_of a)) [
      | some b ↦ (err (status already_exists ""), w)
      | none ↦ (ok tt, put (some a) w)
    ];
    update = λ a w. (ok tt, put (some a) w);
    delete = λ a w. (ok tt, put none w);
  }

  put-held : (a : A) (w : W) → held (put (some a) w) (namespace_of a) (name_of a) ≡ some a
  unfolding held
  put-held a w = ground (arith, cell-put (some a) w, ==_self (namespace_of a), ==_self (name_of a))

  at-named :
      (w : W) (ns n : String) (a : A)
      → held w ns n ≡ some a
      → (namespace_of a ≡ ns) × (name_of a ≡ n)
  unfolding held
  at-named w ns n a h = elim (Option-cases (cell w)) [
    | inl e ↦ absurd (ground arith)
    | inr (b, e) ↦ (ground arith, ground arith)
  ]

  gone : (a : A) (w : W) → held (put none w) (namespace_of a) (name_of a) ≡ none
  unfolding held
  gone a w = ground (arith, cell-put none w)

  pub cells-IsCrud : IsCrud cells held held namespace_of name_of
  unfolding cells
  cells-IsCrud = record {
    get-same = λ ns n w. refl;
    get-ok = λ ns n w a h. elim (Option-cases (held w ns n)) [
      | inl e ↦ absurd (ground arith)
      | inr (b, e) ↦ ground arith
    ];
    get-missing = λ ns n w e h m. elim (Option-cases (held w ns n)) [
      | inl e ↦ e
      | inr (b, e) ↦ absurd (ground arith)
    ];
    named = λ ns n w a h. at-named w ns n a h;
    create-ok = λ a w h. elim (Option-cases (held w (namespace_of a) (name_of a))) [
      | inl e ↦ ground (arith, put-held a w)
      | inr (b, e) ↦ absurd (ground arith)
    ];
    create-exists = λ a w e h m. elim (Option-cases (held w (namespace_of a) (name_of a))) [
      | inl e ↦ absurd (ground arith)
      | inr (b, e) ↦ (λ x. absurd (ground arith), ground arith)
    ];
    update-ok = λ a w h. put-held a w;
    delete-ok = λ a w h. gone a w;
    delete-missing = λ a w e h m. absurd (ground arith);
  }

  pub cells-IsFrame :
      {X : Type 0} (other : W → X)
      → ((o : Option A) (w : W) → other (put o w) ≡ other w)
      → IsFrame cells other
  unfolding cells
  cells-IsFrame other keep = record {
    get-other = λ ns n w. refl;
    create-other = λ a w. elim (Option-cases (held w (namespace_of a) (name_of a))) [
      | inl e ↦ ground (arith, keep (some a) w)
      | inr (b, e) ↦ ground arith
    ];
    update-other = λ a w. keep (some a) w;
    delete-other = λ a w. keep none w;
  }
