-- ===== src/Http/Multipart/Extract.antt =====
-- The middleware of source/http/middleware/multipart_extract.cpp.
use obelisk_asio_coro.Base.{ℕ, Bytes, Bool, [], Option, none, some, codes, if◌then◌else◌, ◌||◌}
use obelisk_asio_coro.Http.Header.{lookup}
use obelisk_asio_coro.Http.Params.{icontains}
use obelisk_asio_coro.Http.Response.{Response}
use obelisk_asio_coro.Http.Server.{Result, returned, thrown, other_exception}
use obelisk_asio_coro.Http.Multipart.Stream.{InStream, remaining}
use obelisk_asio_coro.Http.Multipart.Meta.{parse_boundary}
use obelisk_asio_coro.Http.Multipart.Body.{
  Outside, Work, Step, next, finished, exception, undefined, endless, parse_multipart_body,
}

-- What later middlewares find in the body.
unfoldable pub left_in : InStream → Work → Work
left_in s w = record w {
  request = record w.request { raw_body = some (if s.eof || s.fail then [] else remaining s) };
}

-- `none` says that the middleware does not end, or that it is undefined.
unfoldable pub after_body : Step → Option (Work × Result (Option Response))
unfolding left_in
after_body (next w s) = some (left_in s w, returned none)
after_body (finished w s) = some (left_in s w, returned none)
after_body (exception text w s) = some (left_in s w, thrown (other_exception text))
after_body undefined = none
after_body endless = none

module _ (same_key : Bytes → Bytes → Bool) (o : Outside) where
  -- A body whose type is known.
  unfoldable pub extract_body : ℕ → Bytes → Bytes → Work → Option (Work × Result (Option Response))
  unfolding icontains parse_boundary parse_multipart_body after_body
  extract_body fuel content_type text w =
      let extracted : Option (Work × Result (Option Response)) =
        elim (parse_boundary o.ws content_type) [
          | none ↦ some (w, thrown (other_exception (o.what (codes "Boundary Parse Failed"))))
          | some boundary ↦ after_body (parse_multipart_body o boundary fuel text w)
        ] in
      if icontains content_type (codes "multipart/form-data")
      then extracted
      else some (w, returned none)

  -- `multipart_extract::pre_handle`
  unfoldable pub multipart_extract : ℕ → Work → Option (Work × Result (Option Response))
  unfolding lookup extract_body
  multipart_extract fuel w = elim (lookup same_key (codes "content-type") w.request.headers) [
    | none ↦ some (w, returned none)
    | some content_type ↦ elim (w.request.raw_body) [
      | none ↦ some (w, returned none)
      | some text ↦ extract_body fuel content_type text w
    ]
  ]
