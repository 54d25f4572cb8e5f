-- ===== src/Server/Http.antt =====
-- pkg/server/server.go: the options of an HTTP server.
use gpgfs.Base.{List, [], ◌∷◌}
use gpgfs.Base.Int.{ℤ, pos}
use gpgfs.Std.Strings.{Str}
use gpgfs.Config.Sections.{TimeoutConfig}

-- The fields of `http.Server` that the program sets.
pub record HttpServer : Type 0 where
  pub addr : Str
  pub read_timeout : ℤ
  pub write_timeout : ℤ

unfoldable pub http_timeout_option : TimeoutConfig → HttpServer → HttpServer
http_timeout_option c s = record s { read_timeout = c.read; write_timeout = c.write }

-- The options in their order.
unfoldable pub with_options : List (HttpServer → HttpServer) → HttpServer → HttpServer
with_options [] s = s
with_options (fn ∷ fns) s = with_options fns (fn s)

unfoldable pub new_http : Str → List (HttpServer → HttpServer) → HttpServer
unfolding with_options
new_http addr options =
    with_options options (record { addr = addr; read_timeout = pos 0; write_timeout = pos 0 })
