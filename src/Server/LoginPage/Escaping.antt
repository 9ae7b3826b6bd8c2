-- ===== src/Server/LoginPage/Escaping.antt =====
-- What html.EscapeString makes of a text, and what a browser reads in the page.
use etunl_cli.Base.{
  ℕ, zero, suc, ◌-◌, sym, ◌≡◌, ◌∙◌, refl, ap, Bool, ◌||◌, Option, none, some, List, [], ◌∷◌, ◌++◌,
  ◌==◌, ◌=?◌, append-nil, get_elem?, if◌then◌else◌, arith,
}
use etunl_cli.Base.Bytes.{Bytes, codes, bytes_is_eq, bytes_eq, is_empty}
use etunl_cli.Server.LoginPage.{
  escaped, html_escape, Piece, text, verb, printed, fprintf, login_html, err_block, login_page,
}

-- The characters that a reference of these names stands for.
unfoldable pub character : Bytes → Option ℕ
character name =
    if name =? codes "amp"
    then some b'&'
    else if name =? codes "#39"
    then some b'\''
    else if name =? codes "lt"
    then some b'<'
    else if name =? codes "gt"
    then some b'>'
    else if name =? codes "#34"
    then some b'"'
    else none

abbrev referred : Bytes → Option ℕ → Bytes
referred name none = b'&' ∷ name ++ b';' ∷ []
referred name (some c) = c ∷ []

-- What a browser shows for the text of a page: a reference runs from `&` to the next `;`. The first
-- argument is the name that is being read.
unfoldable pub shown : Option Bytes → Bytes → Bytes
shown none [] = []
shown (some name) [] = b'&' ∷ name
shown none (c ∷ s) =
    let inside = shown (some []) s in
    let rest = shown none s in if c == b'&' then inside else c ∷ rest
shown (some name) (c ∷ s) =
    let behind = shown none s in
    let more = shown (some (name ++ c ∷ [])) s in
    if c == b';' then referred name (character name) ++ behind else more

shown-escaped : (c : ℕ) (s : Bytes) → shown none (escaped c ++ s) ≡ c ∷ shown none s
unfolding shown escaped character bytes_eq
shown-escaped c s = ground arith

-- A browser shows an escaped text as it was.
pub shown-html_escape : (s : Bytes) → shown none (html_escape s) ≡ s
unfolding html_escape shown
shown-html_escape [] = refl
shown-html_escape (c ∷ s) = shown-escaped c (html_escape s) ∙ ap (◌∷◌ c) (shown-html_escape s)

-- The characters that open and close tags and attribute values.
pub is_mark : ℕ → Bool
is_mark c = c == b'<' || c == b'>' || c == b'"' || c == b'\''

unfoldable pub markup : Bytes → Bytes
unfolding is_mark
markup [] = []
markup (c ∷ s) = let rest = markup s in if is_mark c then c ∷ rest else rest

markup-append : (s t : Bytes) → markup (s ++ t) ≡ markup s ++ markup t
unfolding markup
markup-append [] t = refl
markup-append (c ∷ s) t = ground (arith, markup-append s t)

markup-escaped : (c : ℕ) → markup (escaped c) ≡ []
unfolding markup escaped is_mark
markup-escaped c = ground arith

markup-html_escape : (s : Bytes) → markup (html_escape s) ≡ []
unfolding html_escape
markup-html_escape [] = unfold markup in refl
markup-html_escape (c ∷ s) =
    markup-append (escaped c) (html_escape s) ∙ rw (markup-escaped c) (markup-html_escape s)

-- The same markup in every argument gives the same markup.
markup-fprintf :
    (ps : List Piece) (args args' : List Bytes)
    → ((n : ℕ) → markup (printed args (verb n)) ≡ markup (printed args' (verb n)))
    → markup (fprintf ps args) ≡ markup (fprintf ps args')
unfolding fprintf
markup-fprintf [] args args' same = refl
markup-fprintf (text s ∷ ps) args args' same =
    markup-append (printed args (text s)) (fprintf ps args)
    ∙ ap (λ t. markup (codes s) ++ t) (markup-fprintf ps args args' same)
    ∙ sym (markup-append (printed args' (text s)) (fprintf ps args'))
markup-fprintf (verb n ∷ ps) args args' same =
    markup-append (printed args (verb n)) (fprintf ps args)
    ∙ rw (same n, markup-fprintf ps args args' same)
        (sym (markup-append (printed args' (verb n)) (fprintf ps args')))

at_most_three :
    (a b c a' b' c' : Bytes)
    → markup a ≡ markup a'
    → markup b ≡ markup b'
    → markup c ≡ markup c'
    → (n : ℕ)
    → markup (printed (a ∷ b ∷ c ∷ []) (verb n)) ≡ markup (printed (a' ∷ b' ∷ c' ∷ []) (verb n))
unfolding printed
at_most_three a b c a' b' c' ha hb hc n = go (n - 1)
  where
    go :
        (k : ℕ)
        → markup (elim (get_elem? (a ∷ b ∷ c ∷ []) k) [ none ↦ [] | some s ↦ s ])
          ≡ markup (elim (get_elem? (a' ∷ b' ∷ c' ∷ []) k) [ none ↦ [] | some s ↦ s ])
    go zero = ha
    go (suc zero) = hb
    go (suc (suc zero)) = hc
    go (suc (suc (suc k))) = refl

markup-around :
    (first last s : Bytes) → markup (first ++ html_escape s ++ last) ≡ markup first ++ markup last
markup-around first last s =
    rw
      (
        markup-append (first ++ html_escape s) last,
        markup-append first (html_escape s),
        markup-html_escape s,
        append-nil (markup first),
      )
      refl

err_block-markup :
    (err err' : Bytes)
    → is_empty err ≡ is_empty err'
    → markup (err_block err) ≡ markup (err_block err')
unfolding err_block
err_block-markup [] [] h = refl
err_block-markup [] (c ∷ s) h = cc
err_block-markup (c ∷ s) [] h = cc
err_block-markup (c ∷ s) (d ∷ t) h =
    let first = codes "<div class=\"err\">" in
    let last = codes "</div>" in
    markup-around first last (c ∷ s) ∙ sym (markup-around first last (d ∷ t))

-- Host, redirect and message put no tag and no quote into the login page, and take none out: two
-- pages that both have a message, or both have none, have the same characters `<`, `>`, `"` and `'`,
-- in the same order.
pub login_page-markup :
    (host action err host' action' err' : Bytes)
    → is_empty err ≡ is_empty err'
    → markup (login_page host action err) ≡ markup (login_page host' action' err')
unfolding login_page
login_page-markup host action err host' action' err' h =
    markup-fprintf login_html (html_escape host ∷ html_escape action ∷ err_block err ∷ [])
      (html_escape host' ∷ html_escape action' ∷ err_block err' ∷ [])
      (at_most_three (html_escape host) (html_escape action) (err_block err) (html_escape host')
        (html_escape action') (err_block err')
        (markup-html_escape host ∙ sym (markup-html_escape host'))
        (markup-html_escape action ∙ sym (markup-html_escape action'))
        (err_block-markup err err' h))
