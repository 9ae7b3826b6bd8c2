-- ===== src/Server/LoginPage.antt =====
-- internal/server/session_auth.go: the page that renderLoginPage writes, with html.EscapeString and
-- the verbs of fmt.Fprintf that its format has.
pub mod Escaping
mod Tests
use etunl_cli.Base.{
  ℕ, zero, suc, Bool, true, false, Option, none, some, List, [], ◌∷◌, ◌++◌, get_elem?, ◌==◌,
  if◌then◌else◌, ◌-◌,
}
use etunl_cli.Base.Bytes.{Bytes, codes, is_empty}
use Prim.Native.String.{String}

-- `html.EscapeString` writes these five characters as references.
pub escaped : ℕ → Bytes
escaped c =
    if c == b'&'
    then codes "&amp;"
    else if c == b'\''
    then codes "&#39;"
    else if c == b'<'
    then codes "&lt;"
    else if c == b'>'
    then codes "&gt;"
    else if c == b'"'
    then codes "&#34;"
    else c ∷ []

pub html_escape : Bytes → Bytes
unfolding escaped
html_escape [] = []
html_escape (c ∷ s) = escaped c ++ html_escape s

-- A format of fmt.Fprintf, cut at its verbs: text, in which `%%` is a single `%`, and `%[n]s`.
pub data Piece : Type 0 where
  text : String → Piece
  verb : ℕ → Piece

-- `args[n-1]`; the format has no other verbs than those of its arguments.
pub printed : List Bytes → Piece → Bytes
printed args (text s) = codes s
printed args (verb n) = elim (get_elem? args (n - 1)) [ none ↦ [] | some s ↦ s ]

pub fprintf : List Piece → List Bytes → Bytes
unfolding printed
fprintf [] args = []
fprintf (p ∷ ps) args = printed args p ++ fprintf ps args

-- `loginHTML`, line by line.
abbrev pub login_html : List Piece
login_html =
    text "<!DOCTYPE html>\n"
    ∷ text "<html lang=\"en\">\n"
    ∷ text "<head>\n"
    ∷ text "<meta charset=\"UTF-8\">\n"
    ∷ text "<meta name=\"viewport\" content=\"width=device-width, initial-scale=1.0\">\n"
    ∷ text "<title>Sign in &middot; "
    ∷ verb 1
    ∷ text "</title>\n"
    ∷ text "<style>\n"
    ∷ text "  *{box-sizing:border-box;margin:0;padding:0}\n"
    ∷ text
        "  body{font-family:-apple-system,BlinkMacSystemFont,'Segoe UI',sans-serif;background:#0a0a0a;color:#e0e0e0;min-height:100vh;display:flex;align-items:center;justify-content:center;padding:1rem}\n"
    ∷ text
        "  .card{background:#111;border:1px solid #222;border-radius:8px;padding:2rem;width:100%;max-width:340px}\n"
    ∷ text "  h1{font-size:1.1rem;font-weight:600;margin-bottom:0.25rem;color:#fff}\n"
    ∷ text
        "  .host{font-family:ui-monospace,SFMono-Regular,Menlo,monospace;font-size:0.8rem;color:#888;margin-bottom:1.5rem}\n"
    ∷ text
        "  label{display:block;font-size:0.75rem;color:#888;text-transform:uppercase;letter-spacing:0.05em;margin-bottom:0.3rem;margin-top:1rem}\n"
    ∷ text "  label:first-of-type{margin-top:0}\n"
    ∷ text
        "  input{width:100%;background:#0a0a0a;border:1px solid #333;color:#e0e0e0;padding:0.6rem;border-radius:4px;font-size:0.9rem;font-family:inherit}\n"
    ∷ text "  input:focus{outline:none;border-color:#555}\n"
    ∷ text
        "  button{margin-top:1.5rem;width:100%;background:#1e3a5f;border:none;color:#60a5fa;padding:0.65rem;border-radius:4px;cursor:pointer;font-size:0.9rem;font-weight:500}\n"
    ∷ text "  button:hover{background:#254b75}\n"
    ∷ text
        "  .err{margin-bottom:1rem;padding:0.5rem 0.75rem;background:#3b1f1f;border:1px solid #5a2a2a;border-radius:4px;color:#f87171;font-size:0.85rem}\n"
    ∷ text "</style>\n"
    ∷ text "</head>\n"
    ∷ text "<body>\n"
    ∷ text "  <form class=\"card\" method=\"POST\" action=\""
    ∷ verb 2
    ∷ text "\" autocomplete=\"on\">\n"
    ∷ text "    <h1>Sign in</h1>\n"
    ∷ text "    <div class=\"host\">"
    ∷ verb 1
    ∷ text "</div>\n"
    ∷ text "    "
    ∷ verb 3
    ∷ text "\n"
    ∷ text "    <label for=\"user\">Username</label>\n"
    ∷ text "    <input id=\"user\" name=\"user\" autofocus autocomplete=\"username\">\n"
    ∷ text "    <label for=\"password\">Password</label>\n"
    ∷ text
        "    <input id=\"password\" name=\"password\" type=\"password\" autocomplete=\"current-password\">\n"
    ∷ text "    <button type=\"submit\">Sign in</button>\n"
    ∷ text "  </form>\n"
    ∷ text "</body>\n"
    ∷ text "</html>"
    ∷ []

-- `errBlock`
pub err_block : Bytes → Bytes
unfolding html_escape
err_block err_msg =
    if is_empty err_msg
    then []
    else codes "<div class=\"err\">" ++ html_escape err_msg ++ codes "</div>"

-- What renderLoginPage writes for a host, the action of the form and a message.
pub login_page : Bytes → Bytes → Bytes → Bytes
unfolding fprintf html_escape err_block
login_page host action err_msg =
    fprintf login_html (html_escape host ∷ html_escape action ∷ err_block err_msg ∷ [])
