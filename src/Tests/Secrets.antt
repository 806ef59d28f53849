-- ===== src/Tests/Secrets.antt =====
-- A model's secrets that do what the code relies on.
use filesystem_charms.Base.{true}
use filesystem_charms.Base.{
  ◌≡◌, refl, ℕ, Option, none, some, List, ◌∷◌, nat_eq, if◌then◌else◌, contains, arith, nat_beq_iff,
}
use filesystem_charms.Base.Dict.{Dict}
use filesystem_charms.Base.Text.{Text, codes}
use filesystem_charms.Filesystem.Infos.{Secrets, Reader, owner, remote}
use filesystem_charms.Filesystem.Infos.Secret.{IsJuju}

abbrev Content : Type 0
Content = Option (Dict Text Text)

abbrev has_content : Content → Option (Unit {0})
has_content none = none
has_content (some c) = some tt

abbrev replaced : Dict Text Text → Content → Content
replaced content none = none
replaced content (some c) = some content

abbrev granted : Reader → Content × List ℕ → Content
granted owner w = w.0
granted (remote r) w = if contains w.1 r then w.0 else none

-- One secret, with the relations that it was granted to.
abbrev pub secrets : Secrets
secrets = record {
  World = Content × List ℕ;
  Secret = Unit {0};
  get_by_label = λ label w. has_content w.0;
  add_secret = λ content label w. (tt, (some content, w.1));
  set_content = λ s content w. (replaced content w.0, w.1);
  id = λ s. codes "secret:1";
  revision = λ s w. 1;
  related = λ r. true;
  grant = λ s r w. (true, (w.0, r ∷ w.1));
  read = λ reader id w. granted reader w;
}

label_set :
    (content : Dict Text Text) (c : Content) → has_content (replaced content c) ≡ has_content c
label_set content none = refl
label_set content (some d) = refl

read_set :
    (content : Dict Text Text) (c : Content)
    → has_content c ≡ some tt
    → replaced content c ≡ some content
read_set content none h = absurd (none-ne-some h)
  where
    none-ne-some : ◌≡◌ {A = Option (Unit {0})} none (some tt) → ⊥
    none-ne-some q = cc q
read_set content (some d) h = refl

remote_set :
    (r : ℕ) (old content : Dict Text Text) (c : Content) (g : List ℕ)
    → granted (remote r) (c, g) ≡ some old
    → granted (remote r) (replaced content c, g) ≡ some content
remote_set r old content none g h = ground arith
remote_set r old content (some d) g h = ground arith

read_granted :
    (r : ℕ) (content : Dict Text Text) (c : Content) (g : List ℕ)
    → c ≡ some content
    → granted (remote r) (c, r ∷ g) ≡ some content
unfolding contains
read_granted r content c g h = ground (arith, nat_beq_iff r r)

kept_granted :
    (r : ℕ) (reader : Reader) (content : Dict Text Text) (c : Content) (g : List ℕ)
    → granted reader (c, g) ≡ some content
    → granted reader (c, r ∷ g) ≡ some content
unfolding contains
kept_granted r owner content c g h = h
kept_granted r (remote t) content c g h = ground arith

pub secrets-IsJuju : IsJuju secrets
secrets-IsJuju = record {
  id_kind = λ s. (codes "1", refl);
  label_added = λ content label w h. refl;
  read_added = λ content label w h. refl;
  label_set = λ label s content w. label_set content w.0;
  read_set = λ label s content w h. read_set content w.0 h;
  remote_set = λ s r old content w h. remote_set r old content w.0 w.1 h;
  granted = λ label s r w there h. refl;
  label_granted = λ label s r w. refl;
  read_granted = λ s r content w there h. read_granted r content w.0 w.1 h;
  kept_granted = λ s r reader content w h. kept_granted r reader content w.0 w.1 h;
}
