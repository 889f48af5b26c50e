-- ===== src/Ast/Regex.antt =====
-- The flags of regular expressions (path/ast/regex.go), as a bit mask.
use sqljson.Prelude.{
  ℕ, ◌+◌, ◌/◌, ◌%◌, Bool, true, false, not, Option, none, some, [], ◌∷◌, ◌++◌, Str, bytes, nat_eq,
  if◌then◌else◌,
}

-- the flags of regexp/syntax that depend on the mask
pub record SyntaxFlags : Type 0 where
  pub fold_case : Bool
  pub literal : Bool
  pub one_line : Bool
  pub dot_nl : Bool

-- the five bits
abbrev pub i_case : ℕ
i_case = 1

abbrev pub dot_all : ℕ
dot_all = 2

abbrev pub m_line : ℕ
m_line = 4

abbrev pub w_space : ℕ
w_space = 8

abbrev pub quote : ℕ
quote = 16

-- mask & flag != 0, for a flag of one bit
unfoldable pub has_flag : ℕ → ℕ → Bool
has_flag mask flag = nat_eq (mask / flag % 2) 1

-- mask |= flag
unfoldable pub add_flag : ℕ → ℕ → ℕ
unfolding has_flag
add_flag mask flag = if has_flag mask flag then mask else mask + flag

-- the loop of newRegexFlags; a letter that it does not know is an error
unfoldable pub parse_flags : ℕ → Str → Option ℕ
parse_flags mask [] = some mask
parse_flags mask (c ∷ s) =
    if nat_eq c b'i'
    then parse_flags (add_flag mask i_case) s
    else if nat_eq c b's'
    then parse_flags (add_flag mask dot_all) s
    else if nat_eq c b'm'
    then parse_flags (add_flag mask m_line) s
    else if nat_eq c b'x'
    then parse_flags (add_flag mask w_space) s
    else if nat_eq c b'q'
    then parse_flags (add_flag mask quote) s
    else none

-- _syntaxFlags
unfoldable pub syntax_flags : ℕ → Option SyntaxFlags
syntax_flags mask =
    let fold = has_flag mask i_case in
    if has_flag mask quote
    then some (record { fold_case = fold; literal = true; one_line = true; dot_nl = false })
    else if has_flag mask w_space
    then none
    else some (record {
      fold_case = fold;
      literal = false;
      one_line = not (has_flag mask m_line);
      dot_nl = has_flag mask dot_all;
    })

abbrev pub if_supported : ℕ → Option SyntaxFlags → Option ℕ
if_supported mask none = none
if_supported mask (some flags) = some mask

abbrev pub check_flags : Option ℕ → Option ℕ
check_flags none = none
check_flags (some mask) = if_supported mask (syntax_flags mask)

-- newRegexFlags
unfoldable pub new_regex_flags : Str → Option ℕ
new_regex_flags flags = check_flags (parse_flags 0 flags)

abbrev pub letter_if : ℕ → ℕ → ℕ → Str
letter_if mask flag letter = if has_flag mask flag then letter ∷ [] else []

-- the loop of String: the letters in the order of the bits
unfoldable pub letters : ℕ → Str
letters mask =
    letter_if mask i_case b'i'
    ++ letter_if mask dot_all b's'
    ++ letter_if mask m_line b'm'
    ++ letter_if mask w_space b'x'
    ++ letter_if mask quote b'q'

-- String
unfoldable pub flags_string : ℕ → Str
flags_string mask = if nat_eq mask 0 then [] else (bytes " flag \"" ++ letters mask) ++ (b'"' ∷ [])

-- shouldQuoteMeta
unfoldable pub should_quote_meta : ℕ → Bool
should_quote_meta mask = has_flag mask quote

abbrev pub close_group : Str → Str
close_group [] = []
close_group (c ∷ s) = bytes "(?" ++ ((c ∷ s) ++ (b')' ∷ []))

-- goFlags
unfoldable pub go_flags : ℕ → Str
go_flags mask = close_group (
    letter_if mask i_case b'i'
    ++ (if has_flag mask quote
        then []
        else letter_if mask dot_all b's' ++ letter_if mask m_line b'm'))
