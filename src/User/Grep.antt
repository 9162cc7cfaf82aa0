-- ===== src/User/Grep.antt =====
-- user/grep.c: the matcher and the reading of lines. A C string is the list of its bytes before the
-- NUL.
pub mod Language
pub mod Lines
pub mod Output
pub mod Examples
use os_proj.Base.{
  ℕ, zero, suc, ◌+◌, ◌-◌, min, length, take, drop, ◌&&◌, ◌||◌, Bool, true, false, not, Option, none,
  some, List, [], ◌∷◌, ◌++◌, ◌==◌, if◌then◌else◌,
}

-- `c == '.' || c == t`.
pub accepts : ℕ → ℕ → Bool
accepts c t = c == b'.' || c == t

abbrev pub is_end : List ℕ → Bool
is_end [] = true
is_end (t ∷ text) = false

-- `*text != '\0' && (re[0] == '.' || re[0] == *text)`, and then the rest of the pattern behind it.
abbrev pub one_byte : ℕ → (List ℕ → Bool) → List ℕ → Bool
one_byte c here [] = false
one_byte c here (t ∷ text) = if accepts c t then here text else false

-- `matchstar`, with `matchhere(re, ...)` as the function `here`.
pub matchstar : ℕ → (List ℕ → Bool) → List ℕ → Bool
matchstar c here [] = here []
matchstar c here (t ∷ text) =
    let later = matchstar c here text in
    if here (t ∷ text) then true else if accepts c t then later else false

pub matchhere : List ℕ → List ℕ → Bool
matchhere [] text = true
matchhere (c ∷ []) text = if c == b'$' then is_end text else one_byte c (matchhere []) text
matchhere (c ∷ d ∷ re) text =
    if d == b'*' then matchstar c (matchhere re) text else one_byte c (matchhere (d ∷ re)) text

-- The loop of `match` over the ends of the text.
pub match_from : List ℕ → List ℕ → Bool
match_from re [] = matchhere re []
match_from re (t ∷ text) =
    let later = match_from re text in if matchhere re (t ∷ text) then true else later

pub match : List ℕ → List ℕ → Bool
match [] text = match_from [] text
match (c ∷ re) text = if c == b'^' then matchhere re text else match_from (c ∷ re) text

abbrev pub extend : ℕ → Option (List ℕ × List ℕ) → Option (List ℕ × List ℕ)
extend c none = none
extend c (some (line, rest)) = some (c ∷ line, rest)

-- The line up to the first newline of the buffer and what is behind it; `strchr` stops at a NUL.
pub next_line : List ℕ → Option (List ℕ × List ℕ)
next_line [] = none
next_line (c ∷ buf) =
    let later = next_line buf in
    if c == 0 then none else if c == b'\n' then some ([], buf) else extend c later

-- The bytes that one `write` prints.
abbrev pub with_newline : List ℕ → List ℕ
with_newline line = line ++ b'\n' ∷ []

-- One turn of the inner loop of `grep`; `later` is the loop behind the line.
abbrev pub scan_line :
    List ℕ
    → List ℕ
    → (List ℕ → List (List ℕ) × List ℕ)
    → Option (List ℕ × List ℕ)
    → List (List ℕ) × List ℕ
scan_line re buf later none = ([], buf)
scan_line re buf later (some (line, rest)) =
    let (out, left) = later rest in (if match re line then with_newline line ∷ out else out, left)

-- The inner loop over the lines of the buffer, on fuel: what it writes, and what is left from `p`
-- on.
pub scan : ℕ → List ℕ → List ℕ → List (List ℕ) × List ℕ
scan zero re buf = ([], buf)
scan (suc fuel) re buf = scan_line re buf (scan fuel re) (next_line buf)

-- `sizeof(buf)`.
abbrev pub bufsize : ℕ
bufsize = 1024

-- What one `read` takes: at most as many bytes as the file has ready and as the buffer has room
-- for.
abbrev pub read_size : ℕ → List ℕ → ℕ
read_size ready left = min ready (bufsize - length left - 1)

-- `grep`, from a file with the bytes `input` left, of which `ready` says for each `read` how many
-- can be had, and with `left` in the buffer: what is written, and what is never read.
pub grep : List ℕ → List ℕ → List ℕ → List ℕ → List (List ℕ) × List ℕ
grep re [] input left = ([], input)
grep re (ready ∷ later) input left =
    let got = take (read_size ready left) input in
    let (out, left') = scan (length (left ++ got) + 1) re (left ++ got) in
    let (more, unread) = grep re later (drop (read_size ready left) input) left' in
    if length got == 0 then ([], input) else (out ++ more, unread)
