-- ===== src/Examples/Parsing.antt =====
-- Runs and instances for the parser of src/lang/core.py.
use l.Base.{ℕ, ◌+◌, Bool, false, none, List, [], ◌∷◌, ◌≡◌, refl, arith, dec_lt}
use l.Base.Results.{ok, err}
use l.Types.{Ty, nil, cons, name_ty}
use l.Syntax.{fn, end}
use l.Lexer.{lex}
use l.Lexer.Cuts.{Kind, Tok}
use l.Lexer.Scan.{scan}
use l.Parser.Tokens.{Token, name, word, int, eof, read_tokens}
use l.Parser.Monad.{◌>>=◌, ret, fail, look, peek, lang, comparisons_chain}
use l.Parser.Types.{type, types, qname, qname_rest, result_type}
use l.Parser.Types.Printed.{print_type}
use l.Parser.Types.RoundTrip.{type-print_type}
use l.Parser.Operators.{literal_of, prefix_of, infix_from}
use l.Parser.Exprs.{expr, params, block}
use l.Parser.Decls.{parse, program, decl, decl_body, type_params}
use l.Parser.Decls.Total.{Settled, parse-Settled}

-- fn(?T, const []u8) -> ref a.b[T]
abbrev fn_tokens : List Token
fn_tokens =
    word "fn"
    ∷ word "("
    ∷ word "?"
    ∷ name "T"
    ∷ word ","
    ∷ word "const"
    ∷ word "["
    ∷ word "]"
    ∷ name "u8"
    ∷ word ")"
    ∷ word "->"
    ∷ word "ref"
    ∷ name "a"
    ∷ word "."
    ∷ name "b"
    ∷ word "["
    ∷ name "T"
    ∷ word "]"
    ∷ eof
    ∷ []

abbrev sample_type : Ty
sample_type =
    Ty.fn (cons (Ty.opt (name_ty "T")) (cons (Ty.const_array (name_ty "u8")) nil))
      (Ty.ref (Ty.name ("a" ∷ "b" ∷ []) (cons (name_ty "T") nil)))

reads_type : type 40 fn_tokens ≡ ok (sample_type, eof ∷ [])
unfolding type qname qname_rest types ◌>>=◌ ret fail look peek
reads_type = refl

type-print_type_example :
    type 40 (print_type sample_type (word ";" ∷ eof ∷ [])) ≡ ok (sample_type, word ";" ∷ eof ∷ [])
type-print_type_example =
    type-print_type sample_type 40 (word ";" ∷ eof ∷ [])
      (((tt, tt), ((tt, tt), tt)), (tt, ((tt, tt), tt))) (refl, refl, refl) (omega arith)

-- fn f(){}
abbrev fn_text : List ℕ
fn_text = 102 ∷ 110 ∷ 32 ∷ 102 ∷ 40 ∷ 41 ∷ 123 ∷ 125 ∷ []

-- a token on the first line
abbrev tok : Kind → List ℕ → ℕ → ℕ → Tok
tok k t i j = record {
  kind = k;
  text = t;
  start = i;
  stop = j;
  line = 1;
  col = i + 1;
  end_line = 1;
  end_col = j + 1;
  raw = none;
}

abbrev fn_toks : List Tok
fn_toks =
    tok (Kind.word (102 ∷ 110 ∷ [])) (102 ∷ 110 ∷ []) 0 2
    ∷ tok Kind.name (102 ∷ []) 3 4
    ∷ tok (Kind.word (40 ∷ [])) (40 ∷ []) 4 5
    ∷ tok (Kind.word (41 ∷ [])) (41 ∷ []) 5 6
    ∷ tok (Kind.word (123 ∷ [])) (123 ∷ []) 6 7
    ∷ tok (Kind.word (125 ∷ [])) (125 ∷ []) 7 8
    ∷ tok Kind.eof [] 8 8
    ∷ []

abbrev no_more : ℕ → Bool
no_more c = false

fn_lexes : lex no_more false fn_text ≡ ok fn_toks
unfolding lex scan
fn_lexes = refl

fn_parses : parse fn_toks ≡ ok (fn false "f" [] [] Ty.unit end ∷ [])
unfolding parse program decl decl_body type_params look peek ◌>>=◌ ret fail params result_type block
    read_tokens dec_lt
fn_parses = refl

-- x * (1 + 2) < y is 3: `is` and `<` do not chain
abbrev chain : List Token
chain =
    name "x"
    ∷ word "*"
    ∷ word "("
    ∷ int "1"
    ∷ word "+"
    ∷ int "2"
    ∷ word ")"
    ∷ word "<"
    ∷ name "y"
    ∷ word "is"
    ∷ int "3"
    ∷ eof
    ∷ []

does_not_chain : expr 40 0 chain ≡ err (lang comparisons_chain)
unfolding expr qname_rest look peek ◌>>=◌ ret fail literal_of prefix_of infix_from
does_not_chain = refl

parse-Settled_example : Settled (parse fn_toks)
parse-Settled_example = parse-Settled no_more false fn_text fn_toks fn_lexes
