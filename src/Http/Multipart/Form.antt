-- ===== src/Http/Multipart/Form.antt =====
-- The text of a form as browsers write it, and what each of its lines is read as.
pub mod Parts
pub mod Values
pub mod RoundTrip
use obelisk_asio_coro.Base.{
  ℕ, suc, Bytes, Bool, List, [], ◌∷◌, ◌++◌, ◌+◌, ◌-◌, Lacks, Lacks-append, none, some, length, take,
  drop, codes, find, find_char, find_char-append, ◌==◌, Bool-cases, inl, inr, beq, beq→eq, all, not,
  is_empty, true, false, ◌≡◌, arith, refl, ap, sym, ◌∙◌, length-append, drop-add,
  drop-length-append, take-length-append, ◌&&◌, leb,
}
use obelisk_asio_coro.Http.Header.{line_of}
use obelisk_asio_coro.Http.Header.Lines.{line_of-append}
use obelisk_asio_coro.Http.Multipart.Stream.{opened, getline}
use obelisk_asio_coro.Http.Multipart.Upload.{split_data}
use obelisk_asio_coro.Http.Multipart.Upload.Whole.{IsContent}
use obelisk_asio_coro.Http.Multipart.Meta.{ends_value, ends_line}
use obelisk_asio_coro.Http.Multipart.Meta.Printed.{Quotable, Visible, visible}

pub data Part : Type 0 where
  value : Bytes → Bytes → Part
  file : Bytes → Bytes → Bytes → Bytes → Part

-- The lines of a part, without the newlines.
abbrev pub boundary_line : Bytes → Bytes
boundary_line b = codes "--" ++ (b ++ codes "\r")

abbrev pub name_line : Bytes → Bytes
name_line n = codes "Content-Disposition: form-data; name=\"" ++ (n ++ codes "\"\r")

abbrev pub filename_line : Bytes → Bytes → Bytes
filename_line n f =
    codes "Content-Disposition: form-data; name=\""
    ++ (n ++ (codes "\"; filename=\"" ++ (f ++ codes "\"\r")))

abbrev pub type_line : Bytes → Bytes
type_line t = codes "Content-Type: " ++ (t ++ codes "\r")

-- A part in front of what follows it.
pub print_part : Bytes → Part → Bytes → Bytes
print_part b (value n t) rest =
    boundary_line b
    ++ 10 ∷ (name_line n ++ 10 ∷ (codes "\r" ++ 10 ∷ ((t ++ codes "\r") ++ 10 ∷ rest)))
print_part b (file n f t content) rest =
    boundary_line b
    ++ 10
      ∷ (filename_line n f
          ++ 10 ∷ (type_line t ++ 10 ∷ (codes "\r" ++ 10 ∷ (content ++ (codes "\r\n" ++ rest)))))

unfoldable pub print_form : Bytes → List Part → Bytes
unfolding print_part
print_form b [] = codes "--" ++ (b ++ codes "--\r\n")
print_form b (p ∷ ps) = print_part b p (print_form b ps)

-- What is asked of a part: names between quotes without brackets, a value of one line, and a file
-- that does not hold the boundary.
abbrev pub IsPart : Bytes → Part → Type 0
IsPart b (value n t) = Quotable n × (find n (codes "[]") ≡ none) × Lacks 10 t
IsPart b (file n f t content) = Quotable n × Quotable f × Visible t × IsContent b content

pub all-Lacks : (s : Bytes) → all (λ x. not (x == 10)) s ≡ true → Lacks 10 s
all-Lacks [] h = tt
all-Lacks (x ∷ s) h = elim (Bool-cases (x == 10)) [
  | inl ends ↦ absurd (let e = (rw (ends) at h) in cc)
  | inr goes_on ↦ (goes_on, all-Lacks s (let e = (rw (goes_on) at h) in e))
]

visible-Lacks : (stop : ℕ → Bool) (s : Bytes) → all (visible stop) s ≡ true → Lacks 10 s
visible-Lacks stop [] h = tt
visible-Lacks stop (x ∷ s) h = elim (Bool-cases (visible stop x)) [
  | inl seen ↦ (ground arith, visible-Lacks stop s (let e = (rw (seen) at h) in e))
  | inr hidden ↦ absurd (let e = (rw (hidden) at h) in cc)
]

-- No line of a part holds a newline.
pub boundary_line-Lacks : (b : Bytes) → Lacks 10 b → Lacks 10 (boundary_line b)
boundary_line-Lacks b h =
    Lacks-append 10 (codes "--") (b ++ codes "\r") (all-Lacks (codes "--") refl)
      (Lacks-append 10 b (codes "\r") h (all-Lacks (codes "\r") refl))

pub name_line-Lacks : (n : Bytes) → Quotable n → Lacks 10 (name_line n)
name_line-Lacks n (h, full) =
    Lacks-append 10 (codes "Content-Disposition: form-data; name=\"") (n ++ codes "\"\r")
      (all-Lacks (codes "Content-Disposition: form-data; name=\"") refl)
      (Lacks-append 10 n (codes "\"\r") (visible-Lacks ends_value n h)
        (all-Lacks (codes "\"\r") refl))

pub filename_line-Lacks : (n f : Bytes) → Quotable n → Quotable f → Lacks 10 (filename_line n f)
filename_line-Lacks n f (h, full) (k, full2) =
    Lacks-append 10 (codes "Content-Disposition: form-data; name=\"")
      (n ++ (codes "\"; filename=\"" ++ (f ++ codes "\"\r")))
      (all-Lacks (codes "Content-Disposition: form-data; name=\"") refl)
      (Lacks-append 10 n (codes "\"; filename=\"" ++ (f ++ codes "\"\r"))
        (visible-Lacks ends_value n h)
        (Lacks-append 10 (codes "\"; filename=\"") (f ++ codes "\"\r")
          (all-Lacks (codes "\"; filename=\"") refl)
          (Lacks-append 10 f (codes "\"\r") (visible-Lacks ends_value f k)
            (all-Lacks (codes "\"\r") refl))))

pub type_line-Lacks : (t : Bytes) → Visible t → Lacks 10 (type_line t)
type_line-Lacks t (h, full) =
    Lacks-append 10 (codes "Content-Type: ") (t ++ codes "\r")
      (all-Lacks (codes "Content-Type: ") refl)
      (Lacks-append 10 t (codes "\r") (visible-Lacks ends_line t h) (all-Lacks (codes "\r") refl))

pub value_line-Lacks : (t : Bytes) → Lacks 10 t → Lacks 10 (t ++ codes "\r")
value_line-Lacks t h = Lacks-append 10 t (codes "\r") h (all-Lacks (codes "\r") refl)

-- A line of a stream that is good.
module _ (text : Bytes) (p : ℕ) (line rest held : Bytes) (at : drop p text ≡ line ++ 10 ∷ rest)
    (plain : Lacks 10 line) where
  pub getline-line : getline held (opened text p) ≡ (line, opened text (p + length line + 1))
  unfolding getline
  getline-line =
      rw (at, find_char-append 10 line rest plain, getline)
        (rw (at, line_of-append line rest plain) refl)

  pub drop-line : drop (p + length line + 1) text ≡ rest
  drop-line =
      let sum : p + length line + 1 ≡ p + (length line + 1) = omega arith in
      ap (λ n. drop n text) sum
      ∙ (sym (drop-add p (length line + 1) text)
          ∙ (ap (drop (length line + 1)) at
              ∙ (sym (drop-add (length line) 1 (line ++ 10 ∷ rest))
                  ∙ ap (drop 1) (drop-length-append line (10 ∷ rest)))))
