-- ===== src/Server/LoginPage/Tests.antt =====
-- Login pages at concrete inputs.
use etunl_cli.Base.{◌≡◌, refl, []}
use etunl_cli.Base.Bytes.{codes}
use etunl_cli.Server.LoginPage.{html_escape, login_page}
use etunl_cli.Server.LoginPage.Escaping.{markup, login_page-markup}

escaped_host : html_escape (codes "<a href='x'>") ≡ codes "&lt;a href=&#39;x&#39;&gt;"
unfolding html_escape
escaped_host = refl

login_page-markup_example :
    markup (login_page (codes "<a href='x'>") (codes "\"><script>") [])
    ≡ markup (login_page (codes "app.x.io") (codes "/___login___?redirect=/") [])
login_page-markup_example =
    login_page-markup (codes "<a href='x'>") (codes "\"><script>") [] (codes "app.x.io")
      (codes "/___login___?redirect=/") [] refl
