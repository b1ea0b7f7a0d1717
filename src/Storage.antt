-- ===== src/Storage.antt =====
-- `workspace_key` of app/storage/base.py.
use vof_backend.Prelude.{select, ◌==◌, if◌then◌else◌, ℕ, not, ◌&&◌, List, [], ◌∷◌, ◌++◌, map}
use vof_backend.Text.{Text, codes, is_empty, join}
use vof_backend.Text.Hex.{uuid_text}

unfoldable pub lstrip_slash : Text → Text
lstrip_slash [] = []
lstrip_slash (c ∷ s) = let rest = lstrip_slash s in if c == 47 then rest else c ∷ s

unfoldable pub rstrip_slash : Text → Text
rstrip_slash [] = []
rstrip_slash (c ∷ s) =
    let rest = rstrip_slash s in if c == 47 && is_empty rest then [] else c ∷ rest

unfoldable pub storage_key : (workspace_id : ℕ) → List Text → Text
unfolding lstrip_slash rstrip_slash join
storage_key workspace_id parts =
    codes "workspaces/"
    ++ (uuid_text workspace_id
        ++ (codes "/"
            ++ join (codes "/")
                (map (λ p. rstrip_slash (lstrip_slash p)) (select (λ p. not (is_empty p)) parts))))
