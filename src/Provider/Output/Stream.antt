-- ===== src/Provider/Output/Stream.antt =====
-- The parser reads a stream: how its text is cut into chunks makes no difference.
use mathlib.Core.List.{append_assoc}
use mathlib.Core.List.{append-nil}
use native.Mathlib.Decide.{dec_le}
use codevo_runner.Provider.Output.Keeps.{Keeps-parsed}
use codevo_runner.Prelude.{
  ℕ, ◌+◌, ◌≤◌, ◌<◌, ◌≡◌, refl, sym, ap, ◌∙◌, inl, inr, Bool, true, false, ◌||◌, Option, none, some,
  List, [], ◌∷◌, ◌++◌, arith, ltb, ◌==◌, if◌then◌else◌, Bool-cases, length, live, All, Text, lines,
}
use codevo_runner.Prelude.Utf8.{encode, string_length}
use codevo_runner.Json.{Value}
use codevo_runner.Provider.Output.{
  over_limit, end_line, max_line_bytes, Parser, is_set, parse_line, take_fragment, push_lines, push,
}
use codevo_runner.Provider.Output.Lines.{
  join, NoFeed, lines-IsSplit, string_length-le, length-encode-append,
}

-- What is pending fits into a line.
pub record Fits (p : Parser) : Type 0 where
  pub bound : length (encode p.pending) ≤ max_line_bytes

module _ (parse_json : Text → Option Value) where
  -- The parser as it reads one character at a time.
  unfoldable pub read_char : ℕ → Parser → Parser
  read_char c p =
      if p.finished || is_set p.error
      then p
      else if c == 10
      then end_line parse_json p
      else if ltb max_line_bytes (length (encode p.pending) + length (encode (c ∷ [])))
      then over_limit parse_json p
      else record p { pending = p.pending ++ c ∷ [] }

  unfoldable pub read : Text → Parser → Parser
  read [] p = p
  read (c ∷ s) p = read s (read_char c p)

  read-append : (s t : Text) (p : Parser) → read (s ++ t) p ≡ read t (read s p)
  unfolding read
  read-append [] t p = refl
  read-append (c ∷ s) t p = read-append s t (read_char c p)

  read_stopped : (s : Text) (p : Parser) → (p.finished || is_set p.error) ≡ true → read s p ≡ p
  unfolding read
  read_stopped [] p h = refl
  read_stopped (c ∷ s) p h =
      let e : read_char c p ≡ p = unfold read_char in rw h in ap (read s) e ∙ read_stopped s p h

  read_char-Fits : (c : ℕ) (p : Parser) → Fits p → Fits (read_char c p)
  unfolding read_char encode
  read_char-Fits c p h = ground (arith, length-encode-append p.pending (c ∷ []))

  read-Fits : (s : Text) (p : Parser) → Fits p → Fits (read s p)
  unfolding read
  read-Fits [] p h = h
  read-Fits (c ∷ s) p h = read-Fits s (read_char c p) (read_char-Fits c p h)

  abbrev or_over : Parser → Option Parser → Parser
  or_over p none = over_limit parse_json p
  or_over p (some q) = q

  fragment_over :
      (f : Text) (p : Parser)
      → max_line_bytes < length (encode p.pending) + length (encode f)
      → take_fragment parse_json f p ≡ none
  unfolding take_fragment
  fragment_over f p h = ground arith

  fragment_fits :
      (f : Text) (p : Parser)
      → length (encode p.pending) + length (encode f) ≤ max_line_bytes
      → take_fragment parse_json f p ≡ some (record p { pending = p.pending ++ f })
  unfolding take_fragment
  fragment_fits f p h = ground (arith, string_length-le f)

  abbrev push_char : ℕ → Parser → Parser
  push_char c p = record p { pending = p.pending ++ c ∷ [] }

  -- One more character at the front of a fragment.
  fragment-cons :
      (c : ℕ) (f : Text) (p : Parser)
      → or_over (push_char c p) (take_fragment parse_json f (push_char c p))
        ≡ or_over p (take_fragment parse_json (c ∷ f) p)
  fragment-cons c f p =
      elim (dec_le (length (encode p.pending) + length (encode (c ∷ f))) max_line_bytes) [
        | yes le ↦ rw (fragment_fits (c ∷ f) p le) (
            rw (fragment_fits f (push_char c p) (omega (arith, sizes)))
              (ap (λ t. record p { pending = t }) (append_assoc p.pending (c ∷ []) f)))
        | no gt ↦
            rw (fragment_over (c ∷ f) p (omega arith))
              (rw (fragment_over f (push_char c p) (omega (arith, sizes))))
      ]
    where
      sizes :
          length (encode (p.pending ++ c ∷ [])) + length (encode f)
          ≡ length (encode p.pending) + length (encode (c ∷ f))
      sizes =
          omega (arith, length-encode-append p.pending (c ∷ []), length-encode-append (c ∷ []) f)

  -- A fragment with no line feed is read at once.
  read_fragment :
      (f : Text) (p : Parser)
      → NoFeed f
      → Fits p
      → (p.finished || is_set p.error) ≡ false
      → read f p ≡ or_over p (take_fragment parse_json f p)
  unfolding read
  read_fragment [] p n h live =
      unfold take_fragment encode string_length in ground (arith, append-nil p.pending, h.bound)
  read_fragment (c ∷ f) p n h live =
      elim (Bool-cases
        (ltb max_line_bytes (length (encode p.pending) + length (encode (c ∷ []))))) [
          | inl over ↦
              let e : read_char c p ≡ over_limit parse_json p = unfold read_char in ground arith in
              ap (read f) e
              ∙ read_stopped f (over_limit parse_json p) (ground arith)
              ∙ sym (
                  ap (or_over p)
                    (fragment_over (c ∷ f) p (ground (arith, length-encode-append (c ∷ []) f))))
          | inr fits ↦
              let e : read_char c p ≡ push_char c p = unfold read_char in ground arith in
              ap (read f) e
              ∙ read_fragment f (push_char c p) n.1
                  (record { bound = ground (arith, length-encode-append p.pending (c ∷ [])) }) live
              ∙ fragment-cons c f p
        ]

  finished-end_line : (p : Parser) → (end_line parse_json p).finished ≡ p.finished
  unfolding parse_line
  finished-end_line p = ground (arith, Keeps-parsed (parse_json p.pending) p)

  -- The end of a line, read as a character, where `rest` is what is done with the lines after it.
  read_feed :
      (s : Text) (rest : Parser → Parser) (q : Parser)
      → (q.finished || is_set q.error) ≡ false
      → ((p : Parser) → Fits p → (p.finished || is_set p.error) ≡ false → read s p ≡ rest p)
      → read (10 ∷ s) q ≡ (elim (is_set (end_line parse_json q).error) as (λ _. Parser) [
        | true ↦ end_line parse_json q
        | false ↦ rest (end_line parse_json q)
      ])
  unfolding read
  read_feed s rest q live ih =
      let e : read_char 10 q ≡ end_line parse_json q = unfold read_char in ground arith in
      let kept = finished-end_line q in
      ap (read s) e ∙ go (is_set (end_line parse_json q).error) refl
    where
      go :
          (b : Bool)
          → is_set (end_line parse_json q).error ≡ b
          → read s (end_line parse_json q) ≡ (elim b as (λ _. Parser) [
            | true ↦ end_line parse_json q
            | false ↦ rest (end_line parse_json q)
          ])
      go true f = read_stopped s (end_line parse_json q) (ground arith)
      go false f =
          ih (end_line parse_json q) (record { bound = unfold encode in omega arith })
            (ground (arith, finished-end_line q))

  push_lines-read :
      (ls : List Text) (t : Text) (p : Parser)
      → All NoFeed ls
      → NoFeed t
      → Fits p
      → (p.finished || is_set p.error) ≡ false
      → push_lines parse_json ls t p ≡ read (join ls t) p
  unfolding push_lines
  push_lines-read [] [] p ns n h live = unfold read in refl
  push_lines-read [] (c ∷ t) p ns n h live =
      go (take_fragment parse_json (c ∷ t) p) ∙ sym (read_fragment (c ∷ t) p n h live)
    where
      go :
          (o : Option Parser)
          → (elim o as (λ _. Parser) [ none ↦ over_limit parse_json p | some q ↦ q ]) ≡ or_over p o
      go none = refl
      go (some q) = refl
  push_lines-read (l ∷ ls) t p ns n h live =
      go (take_fragment parse_json l p) refl (λ q hq lq. sym (push_lines-read ls t q ns.1 n hq lq))
      ∙ sym (
          read-append l (10 ∷ join ls t) p
          ∙ ap (read (10 ∷ join ls t)) (read_fragment l p ns.0 h live))
    where
      go :
          (o : Option Parser)
          → take_fragment parse_json l p ≡ o
          → ((q : Parser)
              → Fits q
              → (q.finished || is_set q.error) ≡ false
              → read (join ls t) q ≡ push_lines parse_json ls t q)
          → (elim o as (λ _. Parser) [
            | none ↦ over_limit parse_json p
            | some q ↦ elim (is_set (end_line parse_json q).error) as (λ _. Parser) [
              | true ↦ end_line parse_json q
              | false ↦ push_lines parse_json ls t (end_line parse_json q)
            ]
          ])
            ≡ read (10 ∷ join ls t) (or_over p (take_fragment parse_json l p))
      go none e ih =
          rw e (sym (read_stopped (10 ∷ join ls t) (over_limit parse_json p) (ground arith)))
      go (some q) e ih = rw e (
          sym (
            read_feed (join ls t) (push_lines parse_json ls t) q
              (unfold take_fragment in ground arith) ih))

  -- A chunk is read as its characters are, one by one.
  pub push-read : (text : Text) (p : Parser) → Fits p → push parse_json text p ≡ read text p
  unfolding push
  push-read text p h = elim (Bool-cases (p.finished || is_set p.error)) [
    | inl e ↦ rw e (sym (read_stopped text p e))
    | inr e ↦
        let split = lines-IsSplit text in
        rw e (
          push_lines-read (lines text).0 (lines text).1 p split.1 split.2 h e
          ∙ ap (λ s. read s p) split.0)
  ]

  -- For a parser whose pending text fits into a line: output that arrives in two chunks, cut
  -- anywhere, leaves it as the same output in one chunk does, in its session, verdict, error and
  -- pending text.
  pub push-append :
      (a b : Text) (p : Parser)
      → Fits p
      → push parse_json (a ++ b) p ≡ push parse_json b (push parse_json a p)
  push-append a b p h =
      push-read (a ++ b) p h
      ∙ read-append a b p
      ∙ sym (push-read b (read a p) (read-Fits a p h))
      ∙ ap (push parse_json b) (sym (push-read a p h))
