-- ===== src/Base/Script.antt =====
-- Lines of a shell script.
use Prim.Native.String.{String, ◌++◌ as ◌<>◌}
use mathlib.Core.Path.{◌≡◌, sym, ap, ◌∙◌}
use mathlib.Core.Logic.{◌≢◌}
use text.Mathlib.TextLemmas.{append_assoc, append-eq-nil_iff}

-- The text is in the script, and whole lines of it, after the first line.
abbrev pub HasLine : String → String → Type 0
HasLine text script =
    (before : String) × (after : String) × (script ≡ before <> ("\n" <> (text <> ("\n" <> after))))

pub HasLine-left : (text x script : String) → HasLine text script → HasLine text (x <> script)
HasLine-left text x script (before, after, e) =
    (x <> before, after, ap (λ r. x <> r) e ∙ sym (append_assoc x before _))

pub HasLine-right : (text script y : String) → HasLine text script → HasLine text (script <> y)
HasLine-right text script y (before, after, e) =
    (before, after <> y, ap (λ r. r <> y) e ∙ simp append_assoc)

pub HasLine-ne-empty : (text script : String) → HasLine text script → script ≢ ""
HasLine-ne-empty text script (before, after, e) empty =
    let rest = (append-eq-nil_iff {p = before}).0 (sym e ∙ empty) in
    let newline = (append-eq-nil_iff {p = "\n"}).0 rest.1 in absurd (cc newline.0)
