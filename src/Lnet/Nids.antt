-- ===== src/Lnet/Nids.antt =====
-- `get_nids` of internal/lustre-ops/src/lustre_ops/lnet.py.
use filesystem_charms.Base.{
  ℕ, Bool, not, ◌&&◌, ◌||◌, List, [], ◌∷◌, map, filter, is_empty, leb, nat_eq, ◌==◌, if◌then◌else◌,
}
use filesystem_charms.Base.Exec.{Exec, pure, ◌>>=◌}
use filesystem_charms.Base.Text.{Text, codes, strip, cons_head}
use filesystem_charms.Lnet.{LnetError, query_nids}
use filesystem_charms.System.{System, run_checked}

-- A character at which `splitlines` ends a line.
unfoldable pub is_line_end : ℕ → Bool
is_line_end c =
    (leb 10 c && leb c 13) || (leb 28 c && leb c 30) || c == 133 || c == 8232 || c == 8233

-- `splitlines`, but that `\r\n` ends two lines, and that a blank one follows the last end.
unfoldable pub split_at_ends : Text → List Text
unfolding is_line_end
split_at_ends [] = [] ∷ []
split_at_ends (c ∷ s) =
    let rest = split_at_ends s in if is_line_end c then [] ∷ rest else cons_head c rest

-- `[line.strip() for line in out.splitlines() if line.strip()]`: blank lines are dropped.
unfoldable pub nids_of : Text → List Text
unfolding split_at_ends strip
nids_of out = filter (λ s. not (is_empty s)) (map strip (split_at_ends out))

unfoldable pub list_nids : List Text
list_nids = codes "/usr/sbin/lctl" ∷ codes "list_nids" ∷ []

unfoldable pub get_nids : (S : System) → Exec S.World LnetError (List Text)
get_nids S = do out ← run_checked S list_nids query_nids; pure (nids_of out)
