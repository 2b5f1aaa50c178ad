-- ===== src/Tests/Coding.antt =====
-- A concrete encoding in the place of serde_json, built from parts. Every character of an encoding
-- is at least `A`, so that an encoded value stands on one line, and is a code point.
use agent_teams_mcp.Base.{
  Text, ◌≡◌, refl, ap, ℕ, zero, suc, ◌+◌, ◌-◌, ◌*◌, ◌/◌, ◌%◌, ◌<◌, ◌∙◌, nat_eq, true, if◌then◌else◌,
  Option, none, some, List, [], ◌∷◌, ◌++◌, append_assoc, append-nil, arith, length, Serde, has_char,
  false,
}
use agent_teams_mcp.TeamMode.Lines.{
  is_whitespace, trim_start, trim_end, trim, is_blank, is_utf8, is_utf8-append, LineSerde,
}

pub record Coding (A : Type 0) : Type 0 where
  pub print : A → Text
  pub parse : Text → Option (A × Text)
  pub back : (a : A) (rest : Text) → parse (print a ++ rest) ≡ some (a, rest)
  pub one_line : (a : A) → has_char 10 (print a) ≡ false
  pub utf8 : (a : A) → is_utf8 (print a) ≡ true

pub has_char-append_false :
    (s t : Text) → has_char 10 s ≡ false → has_char 10 t ≡ false → has_char 10 (s ++ t) ≡ false
unfolding has_char
has_char-append_false [] t h k = k
has_char-append_false (c ∷ s) t h k = ground (arith, has_char-append_false s t)

-- A number by its multiples of 65536, each as an `A`, and what is left of it.
pub print_parts : ℕ → ℕ → Text
print_parts zero r = (r + 66) ∷ []
print_parts (suc q) r = 65 ∷ print_parts q r

pub print_nat : ℕ → Text
unfolding print_parts
print_nat n = print_parts (n / 65536) (n % 65536)

pub raise : Option (ℕ × Text) → Option (ℕ × Text)
raise none = none
raise (some (n, s)) = some (n + 65536, s)

pub parse_nat : Text → Option (ℕ × Text)
unfolding raise
parse_nat [] = none
parse_nat (c ∷ s) = let rest = parse_nat s in if nat_eq c 65 then raise rest else some (c - 66, s)

pub parts_back :
    (q r : ℕ) (rest : Text) → parse_nat (print_parts q r ++ rest) ≡ some (q * 65536 + r, rest)
unfolding print_parts parse_nat raise
parts_back zero r rest = ground arith
parts_back (suc q) r rest =
    rw (parts_back q r rest)
      (let e : q * 65536 + r + 65536 ≡ suc q * 65536 + r = omega arith in rw e)

pub nat_back : (n : ℕ) (rest : Text) → parse_nat (print_nat n ++ rest) ≡ some (n, rest)
unfolding print_nat
nat_back n rest =
    parts_back (n / 65536) (n % 65536) rest
    ∙ (let e : n / 65536 * 65536 + n % 65536 ≡ n = omega arith in ap (λ k. some (k, rest)) e)

pub parts_one_line : (q r : ℕ) → has_char 10 (print_parts q r) ≡ false
unfolding print_parts has_char
parts_one_line zero r = ground arith
parts_one_line (suc q) r = ground (arith, parts_one_line q r)

pub nat_one_line : (n : ℕ) → has_char 10 (print_nat n) ≡ false
unfolding print_nat
nat_one_line n = parts_one_line (n / 65536) (n % 65536)

pub parts_utf8 : (q r : ℕ) → r < 65536 → is_utf8 (print_parts q r) ≡ true
unfolding print_parts is_utf8
parts_utf8 zero r h = ground arith
parts_utf8 (suc q) r h = ground (arith, parts_utf8 q r h)

pub nat_utf8 : (n : ℕ) → is_utf8 (print_nat n) ≡ true
unfolding print_nat
nat_utf8 n = parts_utf8 (n / 65536) (n % 65536) (omega arith)

unfoldable pub nat_coding : Coding ℕ
unfolding print_nat parse_nat
nat_coding = record {
  print = print_nat;
  parse = parse_nat;
  back = nat_back;
  one_line = nat_one_line;
  utf8 = nat_utf8;
}

module _ {A B : Type 0} (a : Coding A) (b : Coding B) where
  pub print_pair : A × B → Text
  print_pair (x, y) = a.print x ++ b.print y

  pub parse_second : Option (A × Text) → Option ((A × B) × Text)
  parse_second none = none
  parse_second (some (x, s)) = elim (b.parse s) [
    | none ↦ none
    | some (y, rest) ↦ some ((x, y), rest)
  ]

  pub parse_pair : Text → Option ((A × B) × Text)
  unfolding parse_second
  parse_pair s = parse_second (a.parse s)

  pub pair_back : (p : A × B) (rest : Text) → parse_pair (print_pair p ++ rest) ≡ some (p, rest)
  unfolding print_pair parse_pair parse_second
  pair_back (x, y) rest =
      rw append_assoc (ground (arith, a.back x (b.print y ++ rest), b.back y rest))

  pub pair_one_line : (p : A × B) → has_char 10 (print_pair p) ≡ false
  unfolding print_pair
  pair_one_line (x, y) = has_char-append_false (a.print x) (b.print y) (a.one_line x) (b.one_line y)

  pub pair_utf8 : (p : A × B) → is_utf8 (print_pair p) ≡ true
  unfolding print_pair
  pair_utf8 (x, y) = is_utf8-append (a.print x) (b.print y) ∙ ground (arith, a.utf8 x, b.utf8 y)

  unfoldable pub pair_coding : Coding (A × B)
  unfolding print_pair parse_pair
  pair_coding = record {
    print = print_pair;
    parse = parse_pair;
    back = pair_back;
    one_line = pair_one_line;
    utf8 = pair_utf8;
  }

-- By a type that it is a copy of.
module _ {A B : Type 0} (a : Coding A) (to : B → A) (from : A → B)
    (same : (b : B) → from (to b) ≡ b) where
  pub parse_copy : Option (A × Text) → Option (B × Text)
  parse_copy none = none
  parse_copy (some (x, s)) = some (from x, s)

  pub copy_back :
      (y : B) (rest : Text) → parse_copy (a.parse (a.print (to y) ++ rest)) ≡ some (y, rest)
  unfolding parse_copy
  copy_back y rest = rw (a.back (to y) rest, same y)

  unfoldable pub copy_coding : Coding B
  unfolding parse_copy
  copy_coding = record {
    print = λ y. a.print (to y);
    parse = λ s. parse_copy (a.parse s);
    back = copy_back;
    one_line = λ y. a.one_line (to y);
    utf8 = λ y. a.utf8 (to y);
  }

module _ {A : Type 0} (a : Coding A) where
  pub print_items : List A → Text
  print_items [] = []
  print_items (x ∷ xs) = a.print x ++ print_items xs

  pub add_item : A → Option (List A × Text) → Option (List A × Text)
  add_item x none = none
  add_item x (some (xs, s)) = some (x ∷ xs, s)

  pub parse_items : ℕ → Text → Option (List A × Text)
  unfolding add_item
  parse_items zero s = some ([], s)
  parse_items (suc n) s = elim (a.parse s) [
    | none ↦ none
    | some (x, rest) ↦ add_item x (parse_items n rest)
  ]

  pub items_back :
      (xs : List A) (rest : Text)
      → parse_items (length xs) (print_items xs ++ rest) ≡ some (xs, rest)
  unfolding print_items parse_items
  items_back [] rest = refl
  items_back (x ∷ xs) rest =
      rw (append_assoc, a.back x (print_items xs ++ rest), items_back xs rest)

  pub print_list : List A → Text
  unfolding print_items print_nat
  print_list xs = print_nat (length xs) ++ print_items xs

  pub parse_counted : Option (ℕ × Text) → Option (List A × Text)
  unfolding parse_items
  parse_counted none = none
  parse_counted (some (n, s)) = parse_items n s

  pub parse_list : Text → Option (List A × Text)
  unfolding parse_counted parse_nat
  parse_list s = parse_counted (parse_nat s)

  counted :
      (xs : List A) (rest : Text)
      → parse_counted (some (length xs, print_items xs ++ rest)) ≡ some (xs, rest)
  unfolding parse_counted
  counted xs rest = items_back xs rest

  pub list_back : (xs : List A) (rest : Text) → parse_list (print_list xs ++ rest) ≡ some (xs, rest)
  unfolding parse_list print_list
  list_back xs rest =
      ap (λ t. parse_counted (parse_nat t))
        (append_assoc (print_nat (length xs)) (print_items xs) rest)
      ∙ ap parse_counted (nat_back (length xs) (print_items xs ++ rest))
      ∙ counted xs rest

  pub items_one_line : (xs : List A) → has_char 10 (print_items xs) ≡ false
  unfolding print_items has_char
  items_one_line [] = refl
  items_one_line (x ∷ xs) =
      has_char-append_false (a.print x) (print_items xs) (a.one_line x) (items_one_line xs)

  pub list_one_line : (xs : List A) → has_char 10 (print_list xs) ≡ false
  unfolding print_list
  list_one_line xs =
      has_char-append_false (print_nat (length xs)) (print_items xs) (nat_one_line (length xs))
        (items_one_line xs)

  pub items_utf8 : (xs : List A) → is_utf8 (print_items xs) ≡ true
  unfolding print_items is_utf8
  items_utf8 [] = refl
  items_utf8 (x ∷ xs) =
      is_utf8-append (a.print x) (print_items xs) ∙ ground (arith, a.utf8 x, items_utf8 xs)

  pub list_utf8 : (xs : List A) → is_utf8 (print_list xs) ≡ true
  unfolding print_list
  list_utf8 xs =
      is_utf8-append (print_nat (length xs)) (print_items xs)
      ∙ ground (arith, nat_utf8 (length xs), items_utf8 xs)

  unfoldable pub list_coding : Coding (List A)
  unfolding parse_list print_list
  list_coding = record {
    print = print_list;
    parse = parse_list;
    back = list_back;
    one_line = list_one_line;
    utf8 = list_utf8;
  }

  pub to_items : Option A → List A
  to_items none = []
  to_items (some x) = x ∷ []

  pub of_items : List A → Option A
  of_items [] = none
  of_items (x ∷ _) = some x

  pub items_same : (o : Option A) → of_items (to_items o) ≡ o
  unfolding to_items of_items
  items_same none = refl
  items_same (some x) = refl

  unfoldable pub option_coding : Coding (Option A)
  unfolding list_coding copy_coding to_items of_items
  option_coding = copy_coding list_coding to_items of_items items_same

  pub whole : Option (A × Text) → Option A
  whole none = none
  whole (some (x, _)) = some x

  pub whole_back : (x : A) → whole (a.parse (a.print x)) ≡ some x
  unfolding whole
  whole_back x = ap whole (rw append-nil at (a.back x []))

-- A brace on either side keeps the ends of an encoding from being white space.
pub unwrap : {A : Type 0} → Coding A → Text → Option A
unfolding whole
unwrap code [] = none
unwrap code (c ∷ s) = whole code (code.parse s)

pub serde_back :
    {A : Type 0} (code : Coding A) (x : A) → unwrap code (b'{' ∷ code.print x ++ b'}' ∷ []) ≡ some x
unfolding unwrap whole
serde_back code x = rw (code.back x (b'}' ∷ []))

unfoldable pub serde_of : {A : Type 0} → Coding A → Serde A
unfolding unwrap
serde_of code = record {
  encode = λ x. b'{' ∷ code.print x ++ b'}' ∷ [];
  decode = unwrap code;
  decode-encode = serde_back code;
}

trim_end-brace : (s : Text) → trim_end (s ++ b'}' ∷ []) ≡ s ++ b'}' ∷ []
unfolding trim_end is_whitespace
trim_end-brace [] = refl
trim_end-brace (c ∷ []) = refl
trim_end-brace (c ∷ d ∷ s) = ground (arith, trim_end-brace (d ∷ s))

module _ {A : Type 0} (code : Coding A) where
  pub braced : A → Text
  braced x = b'{' ∷ code.print x ++ b'}' ∷ []

  pub braced_one_line : (x : A) → has_char 10 (braced x) ≡ false
  unfolding braced has_char
  braced_one_line x =
      ground (arith, has_char-append_false (code.print x) (b'}' ∷ []) (code.one_line x) refl)

  pub braced_trimmed : (x : A) → trim (braced x) ≡ braced x
  unfolding braced trim trim_start is_whitespace
  braced_trimmed x = trim_end-brace (b'{' ∷ code.print x)

  pub braced_nonempty : (x : A) → is_blank (braced x) ≡ false
  unfolding braced is_blank
  braced_nonempty x = refl

  pub braced_utf8 : (x : A) → is_utf8 (braced x) ≡ true
  unfolding braced is_utf8
  braced_utf8 x = is_utf8-append (code.print x) (b'}' ∷ []) ∙ ground (arith, code.utf8 x)

  pub braced_back : (x : A) → unwrap code (braced x) ≡ some x
  unfolding braced
  braced_back x = serde_back code x

  unfoldable pub line_serde_of : LineSerde A
  unfolding braced unwrap
  line_serde_of = record {
    encode = braced;
    decode = unwrap code;
    decode-encode = braced_back;
    one_line = braced_one_line;
    trimmed = braced_trimmed;
    nonempty = braced_nonempty;
    utf8 = braced_utf8;
  }
