-- ===== src/Frontend/Rule/Pieces.antt =====
-- About app/frontend/src/lib/bart/format.ts: the tokens that an attribute list is written as.
use bart_share.Prelude.{true, List, [], ◌∷◌, ◌++◌, ◌≡◌}
use bart_share.Text.{Str}
use bart_share.Number.{number_text}
use bart_share.Number.Reading.{to_number}
use bart_share.Attrs.{BartScalar, text, num, boolean, BartValue, scalar, collection, BartAttrs}
use bart_share.Emitter.{quote, bool_text}
use bart_share.Emitter.Grammar.{is_number_text}
use bart_share.Frontend.Lexer.{string, number, bool, name}
use bart_share.Frontend.Lexer.Words.{Piece}
use bart_share.Frontend.Lexer.Lexemes.{mark}

abbrev pub scalar_piece : BartScalar → Piece
scalar_piece (text s) = (string, quote s)
scalar_piece (num n) = (number, number_text n)
scalar_piece (boolean b) = (bool, bool_text b)

abbrev pub more_pieces : List BartScalar → List Piece
more_pieces [] = []
more_pieces (v ∷ vs) = mark b',' ∷ scalar_piece v ∷ more_pieces vs

abbrev pub value_pieces : BartValue → List Piece
value_pieces (scalar v) = scalar_piece v ∷ []
value_pieces (collection []) = mark b'{' ∷ mark b'}' ∷ []
value_pieces (collection (v ∷ vs)) = mark b'{' ∷ scalar_piece v ∷ (more_pieces vs ++ mark b'}' ∷ [])

abbrev pub attr_pieces : Str × BartValue → List Piece
attr_pieces (k, v) = mark b'(' ∷ (name, k) ∷ mark b':' ∷ (value_pieces v ++ mark b')' ∷ [])

abbrev pub attrs_pieces : BartAttrs → List Piece
attrs_pieces [] = []
attrs_pieces (a ∷ attrs) = attr_pieces a ++ attrs_pieces attrs

-- A number whose text is one of the grammar and names it.
abbrev pub IsReadable : BartScalar → Type 0
IsReadable (text s) = Unit {0}
IsReadable (num n) = (is_number_text (number_text n) ≡ true) × (to_number (number_text n) ≡ n)
IsReadable (boolean b) = Unit {0}

abbrev pub AreReadable : List BartScalar → Type 0
AreReadable [] = Unit {0}
AreReadable (v ∷ vs) = IsReadable v × AreReadable vs

abbrev pub HasReadable : BartValue → Type 0
HasReadable (scalar v) = IsReadable v
HasReadable (collection vs) = AreReadable vs

abbrev pub HaveReadable : BartAttrs → Type 0
HaveReadable [] = Unit {0}
HaveReadable ((k, v) ∷ attrs) = HasReadable v × HaveReadable attrs
