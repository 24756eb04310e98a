-- ===== src/Text/Strip.antt =====
-- `str.strip` and the slice `s[:n]`.
use Prim.Native.Char.{code}
use balloon_crumbs.Prelude.{ℕ, zero, suc, String, Bool, ◌&&◌, ◌||◌, leb, ◌==◌, if◌then◌else◌}

-- The code points that `str.isspace` accepts.
unfoldable pub is_space : ℕ → Bool
is_space c =
    (leb 9 c && leb c 13)
    || (leb 28 c && leb c 32)
    || c == 0x85
    || c == 0xa0
    || c == 0x1680
    || (leb 0x2000 c && leb c 0x200a)
    || c == 0x2028
    || c == 0x2029
    || c == 0x202f
    || c == 0x205f
    || c == 0x3000

unfoldable pub lstrip : String → String
unfolding is_space
lstrip String.[] = ""
lstrip (String.◌∷◌ c s) = let rest = lstrip s in if is_space (code c) then rest else String.◌∷◌ c s

unfoldable pub rstrip_space : String → String
unfolding is_space
rstrip_space String.[] = ""
rstrip_space (String.◌∷◌ c s) =
    let rest = rstrip_space s in
    elim rest [
      | String.[] ↦ if is_space (code c) then "" else String.◌∷◌ c ""
      | String.◌∷◌ e r ↦ String.◌∷◌ c (String.◌∷◌ e r)
    ]

unfoldable pub strip : String → String
unfolding lstrip rstrip_space
strip s = rstrip_space (lstrip s)

-- `s[:n]`
unfoldable pub prefix_text : ℕ → String → String
prefix_text zero s = ""
prefix_text (suc n) String.[] = ""
prefix_text (suc n) (String.◌∷◌ c s) = String.◌∷◌ c (prefix_text n s)
