-- ===== src/Http/Multipart/Tests.antt =====
-- Runs of the parser of multipart bodies, and its theorems at concrete inputs.
use obelisk_asio_coro.Base.{
  ℕ, Bool, List, [], ◌∷◌, ◌≡◌, none, some, codes, starts_with, find, refl, arith, show_ℕ, ◌==◌,
  ◌||◌,
}
use obelisk_asio_coro.Http.Io.Message.{iequals}
use obelisk_asio_coro.Http.Multipart.Stream.{InStream, opened, read, seek_back}
use obelisk_asio_coro.Http.Multipart.Upload.{
  copied, out_of_fuel, undefined, copy_file, copy_block, find_first,
}
use obelisk_asio_coro.Http.Multipart.Upload.Cut.{copy_file-cut}
use obelisk_asio_coro.Http.Multipart.Meta.{
  parse_disposition, parse_boundary, parse_metas, parse_meta, parse_named, parse_value,
  parse_literal, parse_literal_no_case, skip, run, optional_quote, whole_run, line_run,
}
use obelisk_asio_coro.Http.Multipart.Meta.Printed.{IsSkipper}
use obelisk_asio_coro.Http.Multipart.Body.{Outside, Work, finished, parse_multipart_body}
use obelisk_asio_coro.Http.Multipart.Form.{Part, value, file, print_form}
use obelisk_asio_coro.Http.Multipart.Form.RoundTrip.{store_form, parse_multipart_body-print_form}

abbrev white : ℕ → Bool
white c = c == 32 || (c == 13 || (c == 10 || c == 9))

white-IsSkipper : IsSkipper white
white-IsSkipper = record { blank = refl; line_end = refl; graphic = λ c low high. ground arith }

-- White space inside of a name is lost.
disposition_run :
    parse_disposition white
      (codes "Content-Disposition: form-data; name=\"a b\"; filename=\"c.txt\"\r")
    ≡ some (
        (codes "form-data", [])
        ∷ (codes "name", codes "ab")
        ∷ (codes "filename", codes "c.txt")
        ∷ [])
unfolding parse_disposition parse_metas parse_meta parse_named parse_value parse_literal skip run
    optional_quote starts_with
disposition_run = refl

-- An empty file name, as browsers send it for an empty field, is refused.
empty_filename_run :
    parse_disposition white (codes "Content-Disposition: form-data; name=\"a\"; filename=\"\"\r")
    ≡ none
unfolding parse_disposition parse_metas parse_meta parse_named parse_value parse_literal skip run
    optional_quote starts_with
empty_filename_run = refl

boundary_run :
    parse_boundary white (codes " multipart/form-data; Boundary=--x42") ≡ some (codes "--x42")
unfolding parse_boundary parse_literal_no_case skip line_run whole_run iequals
boundary_run = refl

copy_run :
    copy_file 2 (codes "b") [] [] (opened (codes "ab-c\r\n--b--\r\n") 0)
    ≡ copied (codes "ab-c") (opened (codes "ab-c\r\n--b--\r\n") 6)
unfolding copy_file copy_block find_first find starts_with read seek_back
copy_run = refl

-- A short rest without the boundary takes the count of bytes below zero.
underflow_run : copy_file 2 (codes "b") [] [] (opened (codes "ab") 0) ≡ undefined
unfolding copy_file copy_block find starts_with read
underflow_run = refl

abbrev outside : Outside
outside = record {
  ws = white;
  uuid = show_ℕ;
  extension = λ filename. codes ".txt";
  what = λ text. text;
  type_error = codes "type_error";
}

abbrev empty_work : Work
empty_work = record {
  request = record {
    version = codes "HTTP/1.1";
    headers = [];
    raw_body = none;
    filebag = [];
    params = [];
  };
  disk = [];
  made = 0;
}

abbrev a_form : List Part
a_form =
    value (codes "age") (codes "41")
    ∷ file (codes "photo") (codes "p.txt") (codes "text/plain") (codes "x\r\n-y")
    ∷ value (codes "age") (codes "42")
    ∷ []

copy_file-cut_example :
    copy_file 1000 (codes "b") [] [] (opened (codes "0123456789") 2) ≡ out_of_fuel
unfolding find starts_with
copy_file-cut_example =
    copy_file-cut (codes "b") (codes "0123456789") 2 1000 (omega arith) refl (omega arith)

parse_multipart_body-print_form_example :
    (s : InStream) × (parse_multipart_body outside
        (codes "b")
        1000
        (print_form (codes "b") a_form)
        empty_work
      ≡ finished (store_form outside (codes "b") a_form empty_work) s)
unfolding find starts_with print_form
parse_multipart_body-print_form_example =
    parse_multipart_body-print_form outside (codes "b") a_form empty_work 1000 white-IsSkipper
      (refl, tt) (omega arith)
      ((
        ((refl, refl), refl, (refl, (refl, tt))),
        (
          ((refl, refl), (refl, refl), (refl, refl), refl),
          (((refl, refl), refl, (refl, (refl, tt))), tt),
        ),
      ))
      tt (omega arith)
