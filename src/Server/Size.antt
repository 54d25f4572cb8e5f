-- ===== src/Server/Size.antt =====
-- pkg/server/middleware/telemetry_middleware.go: the size of a request.
use mathlib.Core.Logic.{∥∥₁_elim}
use mathlib.Core.Quot
use mathlib.Core.Quot.{Quot}
use mathlib.Core.List.{Perm, Permᴰ}
use native.Mathlib.Nat.{ℕ_set}
use gpgfs.Base.{
  sym, ℕ, zero, suc, ◌+◌, ◌^◌, ◌<◌, ◌≡◌, refl, ap, ◌∙◌, Option, none, some, List, [], ◌∷◌, ◌++◌,
  length, length-append, arith,
}
use gpgfs.Base.Int.{ℤ, pos, negsuc, add64, add64-pos}
use gpgfs.Std.Strings.{Str}

-- An `http.Request`: the path of its URL, which may be missing, and the header in the order in
-- which a range over the map happens to go.
pub record Request : Type 0 where
  pub path : Option Str
  pub method : Str
  pub proto : Str
  pub header : List (Str × List Str)
  pub host : Str
  pub content_length : ℤ

unfoldable pub path_size : Option Str → ℕ
path_size none = 0
path_size (some p) = length p

unfoldable pub values_size : List Str → ℕ
values_size [] = 0
values_size (v ∷ vs) = length v + values_size vs

unfoldable pub header_size : List (Str × List Str) → ℕ
unfolding values_size
header_size [] = 0
header_size ((name, values) ∷ rest) = length name + values_size values + header_size rest

-- The texts of a request.
unfoldable pub texts_size : Request → ℕ
unfolding path_size header_size
texts_size r =
    path_size r.path + length r.method + length r.proto + header_size r.header + length r.host

-- The content length is added on int64, unless it is -1, which says that it is not known.
unfoldable pub with_content : ℕ → ℤ → ℤ
unfolding add64
with_content s (pos n) = add64 (pos s) (pos n)
with_content s (negsuc zero) = pos s
with_content s (negsuc (suc n)) = add64 (pos s) (negsuc (suc n))

-- `telemetryApproxRequestSize`
unfoldable pub approx_request_size : Request → ℤ
unfolding texts_size with_content
approx_request_size r = with_content (texts_size r) r.content_length

same_header : {h k : List (Str × List Str)} → Permᴰ h k → header_size h ≡ header_size k
unfolding header_size
same_header Permᴰ.nil = refl
same_header (Permᴰ.cons {a = a} {b = b} {l₁ = h} {l₂ = k} e d) =
    ap (λ x. length x.0 + values_size x.1 + header_size h) e
    ∙ ap (λ n. length b.0 + values_size b.1 + n) (same_header d)
same_header (Permᴰ.swap {a = a} {b = b} {a' = c} {b' = d} {l = l} e f) =
    let size : Str × List Str → ℕ = λ x. length x.0 + values_size x.1 in
    omega (arith, ap size e, ap size f)
same_header (Permᴰ.trans d d') = same_header d ∙ same_header d'

-- A header as the map that it is: the order of the entries is forgotten.
abbrev pub HeaderMap : Type 0
HeaderMap = Quot {α = List (Str × List Str)} Perm

abbrev pub as_map : List (Str × List Str) → HeaderMap
as_map h = Quot.mk h

-- The size of a map: what any range over it adds up.
map_size : HeaderMap → ℕ
map_size = Quot.lift ℕ_set header_size (λ h k p. ∥∥₁_elim p (ℕ_set _ _) same_header)

map_size-as_map : (h : List (Str × List Str)) → map_size (as_map h) ≡ header_size h
unfolding map_size
map_size-as_map h = refl

path_text : Option Str → Str
path_text none = []
path_text (some p) = p

path_size_lem : (o : Option Str) → length (path_text o) ≡ path_size o
unfolding path_text path_size
path_size_lem none = refl
path_size_lem (some p) = refl

values_text : List Str → Str
values_text [] = []
values_text (v ∷ vs) = v ++ values_text vs

header_text : List (Str × List Str) → Str
unfolding values_text
header_text [] = []
header_text ((name, values) ∷ rest) = name ++ values_text values ++ header_text rest

-- The path, the method, the protocol, the header with the names and all values, and the host,
-- written one behind the other.
unfoldable pub request_text : Request → Str
unfolding path_text header_text
request_text r = path_text r.path ++ r.method ++ r.proto ++ header_text r.header ++ r.host

values_size_lem : (vs : List Str) → length (values_text vs) ≡ values_size vs
unfolding values_text values_size
values_size_lem [] = refl
values_size_lem (v ∷ vs) = omega (arith, length-append v (values_text vs), values_size_lem vs)

header_size_lem : (h : List (Str × List Str)) → length (header_text h) ≡ header_size h
unfolding header_text header_size
header_size_lem [] = refl
header_size_lem ((name, values) ∷ rest) =
    let whole : length (name ++ values_text values ++ header_text rest)
        ≡ length name + values_size values + header_size rest =
      omega (
        arith,
        length-append (name ++ values_text values) (header_text rest),
        length-append name (values_text values),
        values_size_lem values,
        header_size_lem rest,
      ) in
    whole

texts_size_lem : (r : Request) → length (request_text r) ≡ texts_size r
unfolding request_text texts_size
texts_size_lem r =
    let whole : length (path_text r.path ++ r.method ++ r.proto ++ header_text r.header ++ r.host)
        ≡ path_size r.path
          + length r.method
          + length r.proto
          + header_size r.header
          + length r.host =
      omega (
        arith,
        length-append (path_text r.path ++ r.method ++ r.proto ++ header_text r.header) r.host,
        length-append (path_text r.path ++ r.method ++ r.proto) (header_text r.header),
        length-append (path_text r.path ++ r.method) r.proto,
        length-append (path_text r.path) r.method,
        header_size_lem r.header,
        path_size_lem r.path,
      ) in
    whole

texts_size-as_map :
    (r : Request) (header : List (Str × List Str))
    → as_map r.header ≡ as_map header
    → texts_size (record r { header = header }) ≡ texts_size r
unfolding texts_size
texts_size-as_map r header e =
    let same : header_size header ≡ header_size r.header =
      sym (map_size-as_map header) ∙ sym (ap map_size e) ∙ map_size-as_map r.header in
    rw same refl

-- Whatever the order in which the range goes over the header, the size of a request is the length
-- of its path, method, protocol, header with the names and all values, and host, written one behind
-- the other, and with a known content length it is that much more, if the sum is below 2^63. The
-- content length -1 adds nothing.
pub approx_request_size-as_map :
    (r : Request) (header : List (Str × List Str)) (n : ℕ)
    → as_map r.header ≡ as_map header
    → length (request_text r) + n < 2 ^ 63
    → (approx_request_size (record r { header = header; content_length = pos n })
        ≡ pos (length (request_text r) + n))
      × (approx_request_size (record r { header = header; content_length = negsuc 0 })
          ≡ pos (length (request_text r)))
unfolding approx_request_size
approx_request_size-as_map r header n e small =
    let same : texts_size (record r { header = header }) ≡ length (request_text r) =
      texts_size-as_map r header e ∙ sym (texts_size_lem r) in
    (
      ap (λ s. with_content s (pos n)) same ∙ add64-pos (length (request_text r)) n small,
      ap pos same,
    )
