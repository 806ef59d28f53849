-- ===== src/Repo/Pyproject/Merged.antt =====
-- The sources of a staged charm.
use filesystem_charms.Base.{
  ◌≡◌, refl, ap, subst, ◌∙◌, Bool, true, false, Option, none, some, [], ◌∷◌, text_eq, text_beq_iff,
  ◌==◌, if◌then◌else◌, contains, arith, Bool-cases, inl, inr,
}
use filesystem_charms.Base.Dict.{
  Dict, lookup, insert, keys, NodupKeys, lookup-insert, lookup_absent,
}
use filesystem_charms.Base.Text.{Text}
use filesystem_charms.Repo.Pyproject.{merge, inherited_sources, merged_sources}

-- The first of two values.
abbrev pub or_else {ℓ} : {V : Type ℓ} → Option V → Option V → Option V
or_else (some v) o = some v
or_else none o = o

module _ {V : Type 0} where
  lookup-merge :
      (k : Text) (a b : Dict Text V)
      → NodupKeys b
      → lookup k (merge a b) ≡ or_else (lookup k b) (lookup k a)
  unfolding merge lookup
  lookup-merge k a [] h = refl
  lookup-merge k a ((j, v) ∷ b) h =
      lookup-merge k (insert j v a) b h.1
      ∙ ap (or_else (lookup k b)) (lookup-insert j k v a)
      ∙ elim (Bool-cases (j == k)) [
        | inl same ↦ rw (same, absent same) refl
        | inr other ↦ rw other refl
      ]
    where
      absent : (j == k) ≡ true → lookup k b ≡ none
      absent e = subst (λ i. lookup i b ≡ none) ((text_beq_iff j k).0 e) (lookup_absent j b h.0)

module _ {Source : Type 0} (workspace : Source → Bool) where
  -- A source that is not a member of the workspace.
  abbrev pub external : Option Source → Option Source
  external none = none
  external (some s) = if workspace s then none else some s

  keys-inherited_sources :
      (k : Text) (d : Dict Text Source)
      → contains (keys d) k ≡ false
      → lookup k (inherited_sources workspace d) ≡ none
  unfolding inherited_sources lookup keys contains
  keys-inherited_sources k [] h = refl
  keys-inherited_sources k ((j, s) ∷ d) h =
      ground (arith, keys-inherited_sources k d, text_beq_iff j k)

  lookup-inherited_sources :
      (k : Text) (d : Dict Text Source)
      → NodupKeys d
      → lookup k (inherited_sources workspace d) ≡ external (lookup k d)
  unfolding inherited_sources lookup
  lookup-inherited_sources k [] h = refl
  lookup-inherited_sources k ((j, s) ∷ d) h =
      ground
        (arith, lookup-inherited_sources k d h.1, keys-inherited_sources j d h.0, text_beq_iff j k)

  -- A staged charm has its own source for a name, and otherwise the root's, unless that is a
  -- member of the workspace; both tables list no name twice.
  pub lookup-merged_sources :
      (k : Text) (root own : Dict Text Source)
      → NodupKeys root
      → NodupKeys own
      → lookup k (merged_sources workspace root own)
        ≡ or_else (lookup k own) (external (lookup k root))
  unfolding merged_sources
  lookup-merged_sources k root own hr ho =
      lookup-merge k (inherited_sources workspace root) own ho
      ∙ ap (or_else (lookup k own)) (lookup-inherited_sources k root hr)
