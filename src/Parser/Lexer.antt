-- ===== src/Parser/Lexer.antt =====
-- The state of the lexer and how it reads characters (path/parser/lex.go).
use sqljson.Prelude.{
  ℕ, zero, suc, ◌+◌, ◌-◌, Bool, true, false, Option, none, some, List, [], ◌∷◌, ◌++◌, Str, nat_eq,
  ltb, length, if◌then◌else◌,
}
use sqljson.Prelude.Int.{pos, negsuc}
use sqljson.Golang.Utf8.{decode_rune, encode_rune}
use sqljson.Ast.{Ast}
use sqljson.Ast.Validate.{Fault}
use sqljson.Parser.Token.{Rune, stop}
use sqljson.Parser.Chars.{is_negative}

pub record Position : Type 0 where
  pub offset : ℕ
  pub line : ℕ
  pub column : ℕ

-- The messages of the lexer, each a text of the source, and those of the parser.
pub data Message : Type 0 where
  invalid_utf8 invalid_null underscore_at_start trailing_junk exponent_digits : Message
  separate_digits comment_end not_terminated backslash_end low_surrogate : Message
  invalid_hex invalid_unicode null_text : Message
  exponent_mantissa invalid_digit : Rune → Message
  syntax_error invalid_regex decimal_arguments : Message

-- What l.errors holds: a message with its position, or the error of ast.New.
pub data LexError : Type 0 where
  at : Message → Position → LexError
  invalid_path : Fault → LexError

-- `tok_pos` is `none` for -1.
pub record Lexer : Type 0 where
  pub errors : List LexError
  pub result : Option Ast
  pub pred : Bool
  pub str_buf : Str
  pub got_string : Bool
  pub src_buf : Str
  pub src_pos : ℕ
  pub src_end : ℕ
  pub line : ℕ
  pub column : ℕ
  pub last_line_len : ℕ
  pub last_char_len : ℕ
  pub tok_pos : Option ℕ
  pub tok_end : ℕ
  pub ch : Rune
  pub position : Position
  pub starved : Bool

unfoldable pub new_lexer : Str → Lexer
new_lexer path = record {
  errors = [];
  result = none;
  pred = false;
  str_buf = [];
  got_string = false;
  src_buf = path;
  src_pos = 0;
  src_end = length path;
  line = 1;
  column = 0;
  last_line_len = 0;
  last_char_len = 0;
  tok_pos = none;
  tok_end = 0;
  ch = stop;
  position = record { offset = 0; line = 0; column = 0 };
  starved = false;
}

-- A loop of the model has run out of fuel, which the loop of the code does not have.
abbrev pub starve : Lexer → Lexer
starve l = record l { starved = true }

-- Behind a loop on fuel: it has run out of fuel if its test would let it go on.
unfoldable pub fed : Bool → Lexer → Lexer
fed going l = if going then starve l else l

abbrev pub M : Type 0 → Type 0
M A = Lexer → A × Lexer

abbrev pub after : {A B : Type 0} → A × Lexer → (A → M B) → B × Lexer
after (a, l) k = k a l

infixl 5 ◌>>=◌ ◌>>◌
abbrev pub ◌>>=◌ : {A B : Type 0} → M A → (A → M B) → M B
◌>>=◌ m k l = after (m l) k

abbrev pub ◌>>◌ : {A B : Type 0} → M A → M B → M B
m >> k = m >>= λ _. k

abbrev pub pure : {A : Type 0} → A → M A
pure a l = (a, l)

abbrev pub modify : (Lexer → Lexer) → M (Unit {0})
modify f l = (tt, f l)

-- pos
unfoldable pub position_of : Lexer → Position
position_of l =
    let offset = l.src_pos - l.last_char_len in
    if ltb 0 l.column
    then record { offset = offset; line = l.line; column = l.column }
    else if ltb 0 l.last_line_len
    then record { offset = offset; line = l.line - 1; column = l.last_line_len }
    else record { offset = offset; line = 1; column = 1 }

-- Error
unfoldable pub add_error : Message → Lexer → Lexer
unfolding position_of
add_error m l = record l {
  tok_end = l.src_pos - l.last_char_len;
  errors = l.errors ++ (at m (position_of l) ∷ []);
}

-- l.Error(m), and stopTok
unfoldable pub fail : Message → M Rune
unfolding add_error
fail m l = (stop, add_error m l)

-- hasError
abbrev pub has_error : Lexer → Bool
has_error l = elim l.errors [ [] ↦ false | _ ∷ _ ↦ true ]

abbrev pub reset_str_buf : Lexer → Lexer
reset_str_buf l = record l { str_buf = []; got_string = false }

-- l.strBuf.WriteRune(r), and writeUnicode
unfoldable pub write_rune : Rune → Lexer → Lexer
write_rune (pos r) l = record l { str_buf = l.str_buf ++ encode_rune r }
write_rune (negsuc _) l = record l { str_buf = l.str_buf ++ encode_rune 0xfffd }

-- s[n:]
unfoldable pub drop : ℕ → Str → Str
drop zero s = s
drop (suc n) [] = []
drop (suc n) (c ∷ s) = drop n s

-- s[:n]
unfoldable pub take : ℕ → Str → Str
take zero s = []
take (suc n) [] = []
take (suc n) (c ∷ s) = c ∷ take n s

-- next, at the end of the source
unfoldable pub next_end : M Rune
next_end l = (
  stop,
  record l { column = if ltb 0 l.last_char_len then l.column + 1 else l.column; last_char_len = 0 },
)

abbrev pub advance : ℕ → Lexer → Lexer
advance width l = record l {
  src_pos = l.src_pos + width;
  last_char_len = width;
  column = l.column + 1;
}

abbrev pub newline : Lexer → Lexer
newline l = record l { line = l.line + 1; last_line_len = l.column; column = 0 }

-- next, on the bytes from srcPos on
unfoldable pub next_rune : Option (ℕ × ℕ) → M Rune
unfolding fail
next_rune none l = fail invalid_utf8 (advance 1 l)
next_rune (some (ch, width)) l =
    if nat_eq ch 0
    then fail invalid_null (advance width l)
    else (pos ch, if nat_eq ch 10 then newline (advance width l) else advance width l)

unfoldable pub next : M Rune
unfolding drop next_end next_rune
next l =
    if nat_eq l.src_pos l.src_end
    then next_end l
    else next_rune (decode_rune (drop l.src_pos l.src_buf)) l

abbrev pub hold : Rune → M Rune
hold r l = (r, record l { ch = r })

-- peek
unfoldable pub peek : M Rune
unfolding next
peek l = if is_negative l.ch then after (next l) hold else (l.ch, l)

-- the bytes of the source behind srcPos
abbrev pub left : Lexer → ℕ
left l = l.src_end - l.src_pos

-- tokenText from the position on, which is negative for `none`
unfoldable pub text_from : Option ℕ → M Str
unfolding take drop
text_from none l = ([], l)
text_from (some p) l =
    let e : ℕ = if ltb l.tok_end p then p else l.tok_end in
    (if l.got_string then l.str_buf else take (e - p) (drop p l.src_buf), record l { tok_end = e })

-- tokenText
unfoldable pub token_text : M Str
unfolding text_from
token_text l = text_from l.tok_pos l
