-- ===== src/Batman/Names.antt =====
-- `sanitize` of internal/batman/batman.go: a name that UCI takes for a section.
use Prim.Native.Char.{Char, code}
use Prim.Native.String.{[], ◌∷◌}
use omm.Prelude.{String, Bool, ◌&&◌, ◌||◌, leb, eqb, if◌then◌else◌}

unfoldable pub is_section_char : Char → Bool
is_section_char r =
    eqb (code r) b'_'
    || (leb b'a' (code r) && leb (code r) b'z')
    || (leb b'A' (code r) && leb (code r) b'Z')
    || (leb b'0' (code r) && leb (code r) b'9')

unfoldable pub sanitize : String → String
unfolding is_section_char
sanitize [] = ""
sanitize (c ∷ s) = (if is_section_char c then c else "_") ∷ sanitize s
