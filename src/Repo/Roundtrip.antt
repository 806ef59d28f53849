-- ===== src/Repo/Roundtrip.antt =====
-- `from_charmcraft_lib` reads what `as_charmcraft_lib` writes.
use filesystem_charms.Base.{◌≡◌, refl, false, ◌∷◌, ◌++◌, text_beq}
use filesystem_charms.Base.Dict.{lookup}
use filesystem_charms.Base.Exec.{ok}
use filesystem_charms.Base.Text.{Text, codes, has, is_digit}
use filesystem_charms.Base.Text.Laws.{split_once-append}
use filesystem_charms.Base.Text.Number.{ℤ, str}
use filesystem_charms.Base.Text.Number.Roundtrip.{int-str, str-has}
use filesystem_charms.Repo.{
  CharmLibrary, as_charmcraft_lib, item, two_names, to_int, from_charmcraft_lib,
}

no_dot : (z : ℤ) → has b'.' (str z) ≡ false
unfolding is_digit
no_dot z = str-has b'.' z refl refl

two_names_lem : (a b : Text) → has b'.' a ≡ false → two_names (a ++ b'.' ∷ b) ≡ ok (a, b)
unfolding two_names
two_names_lem a b h = rw (two_names, split_once-append b'.' a b h) refl

to_int-str : (z : ℤ) → to_int (str z) ≡ ok z
unfolding to_int
to_int-str z = rw (to_int, int-str z) refl

lib_item :
    (lib : CharmLibrary)
    → item (codes "lib") (as_charmcraft_lib lib) ≡ ok (lib.charm ++ b'.' ∷ lib.name)
unfolding item as_charmcraft_lib lookup text_beq
lib_item lib = refl

version_item :
    (lib : CharmLibrary)
    → item (codes "version") (as_charmcraft_lib lib)
      ≡ ok (str lib.major_version ++ b'.' ∷ str lib.minor_version)
unfolding item as_charmcraft_lib lookup text_beq
version_item lib = refl

-- `from_charmcraft_lib` gives back the library that `as_charmcraft_lib` wrote, if the name of its
-- charm has no `.`.
pub from_charmcraft_lib-as_charmcraft_lib :
    (lib : CharmLibrary)
    → has b'.' lib.charm ≡ false
    → from_charmcraft_lib (as_charmcraft_lib lib) ≡ ok lib
unfolding from_charmcraft_lib
from_charmcraft_lib-as_charmcraft_lib lib h =
    rw
      (
        from_charmcraft_lib,
        lib_item lib,
        two_names_lem lib.charm lib.name h,
        version_item lib,
        two_names_lem (str lib.major_version) (str lib.minor_version) (no_dot lib.major_version),
        to_int-str lib.major_version,
        to_int-str lib.minor_version,
      )
      refl
