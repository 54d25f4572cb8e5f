-- ===== src/Server/Swagger.antt =====
-- pkg/server/middleware/swagger.go: the routes of the documentation.
use gpgfs.Base.{
  ℕ, ◌≡◌, ◌≢◌, ap, sym, List, [], ◌∷◌, ◌++◌, length, length-append, arith, append_assoc,
}
use gpgfs.Std.Strings.{Str, codes}

-- `ctx.Redirect`, and the handler of echo-swagger.
pub data Route : Type 0 where
  redirect : ℕ → Str → Route
  swagger_handler : Route

abbrev index_of : Str → Str
index_of prefix = prefix ++ codes "/index.html"

-- `MountSwagger`: the paths in the order in which they are added.
unfoldable pub mount_swagger : Str → List (Str × Route)
mount_swagger prefix =
    (prefix, redirect 308 (index_of prefix))
    ∷ (prefix ++ codes "/", redirect 308 (index_of prefix))
    ∷ (prefix ++ codes "/*", swagger_handler)
    ∷ []

-- A redirection leads to neither of the two paths that redirect, so that it is the last one; it leads
-- below the path with the star.
pub index_of_lem :
    (prefix : Str)
    → (index_of prefix ≢ prefix)
      × (index_of prefix ≢ prefix ++ codes "/")
      × (index_of prefix ≡ (prefix ++ codes "/") ++ codes "index.html")
index_of_lem prefix = (
  (λ e. omega (arith, ap length e, length-append prefix (codes "/index.html"))),
  (λ e. omega (
    arith,
    ap length e,
    length-append prefix (codes "/index.html"),
    length-append prefix (codes "/"),
  )),
  sym (append_assoc prefix (codes "/") (codes "index.html")),
)
