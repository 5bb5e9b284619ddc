-- ===== src/Seeker/TempFile.antt =====
-- `ReadCloserToReadSeekCloser` and the reader that it returns (types/readSeeker.go). A body is the bytes that
-- it gives and whether it breaks off after them; `temps` counts the temporary files on disk. The
-- finalizer is one more call of `Close`.
use sequoia.Prelude.{
  if◌then◌else◌, ℕ, zero, suc, ◌-◌, Bool, true, false, ◌≡◌, refl, ◌∙◌, arith, ◌⊎◌, inl, inr,
}
use sequoia.Prelude.Bytes.{Bytes}

pub record Body : Type 0 where
  pub bytes : Bytes
  pub breaks : Bool
  pub open_ : Bool

pub data ConvertError : Type 0 where
  no_temp_file copy_failed seek_failed : ConvertError

-- A temporary file at its beginning, whether `closeOnce` has run, and whether the system removes it.
pub record TempFile : Type 0 where
  pub contents : Bytes
  pub closed : Bool
  pub removable : Bool

-- What the operating system does: whether a file can be created, written so many bytes, rewound and
-- removed. The error of a removal is ignored.
pub record System : Type 0 where
  pub creates : Bool
  pub writes : Bytes → Bool
  pub seeks : Bool
  pub removes : Bool

pub record Converted : Type 0 where
  pub temps : ℕ
  pub body : Body
  pub result : ConvertError ⊎ TempFile

abbrev close_body : Body → Body
close_body b = record b { open_ = false }

-- `Close` of the file and `Remove`, on an error.
abbrev gone : Bool → ℕ → ℕ
gone removes temps = if removes then temps - 1 else temps

abbrev discarded : Bool → ℕ → Body → ConvertError → Converted
discarded removes temps b e = record { temps = gone removes temps; body = b; result = inl e }

pub rewound : (seeks removes : Bool) → ℕ → Body → Converted
rewound true removes temps b = record {
  temps = temps;
  body = b;
  result = inr (record { contents = b.bytes; closed = false; removable = removes });
}
rewound false removes temps b = discarded removes temps b seek_failed

-- The body is closed only after it was copied whole, which its breaking off and a full disk prevent.
pub copied : (breaks writes seeks removes : Bool) → ℕ → Body → Converted
unfolding rewound
copied true writes seeks removes temps b = discarded removes temps b copy_failed
copied false false seeks removes temps b = discarded removes temps b copy_failed
copied false true seeks removes temps b = rewound seeks removes temps (close_body b)

pub with_file : Bool → System → ℕ → Body → Converted
unfolding copied
with_file true s temps b = copied b.breaks (s.writes b.bytes) s.seeks s.removes (suc temps) b
with_file false s temps b = record { temps = temps; body = b; result = inl no_temp_file }

unfoldable pub to_read_seek_closer : System → ℕ → Body → Converted
unfolding with_file
to_read_seek_closer s temps b = with_file s.creates s temps b

-- `Close`: the first call removes the file, if the system does it, and later ones do nothing.
pub closing : Bool → ℕ → TempFile → ℕ × TempFile
closing true temps f = (temps, f)
closing false temps f = (gone f.removable temps, record f { closed = true })

unfoldable pub close_temp : ℕ → TempFile → ℕ × TempFile
unfolding closing
close_temp temps f = closing f.closed temps f

unfoldable pub close_times : ℕ → ℕ → TempFile → ℕ × TempFile
close_times zero temps f = (temps, f)
close_times (suc n) temps f = let (temps', f') = close_temp temps f in close_times n temps' f'

abbrev temps_of : ℕ → ℕ → ConvertError ⊎ TempFile → ℕ
temps_of n temps (inl e) = temps
temps_of n temps (inr f) = (close_times n temps f).0

-- The temporary files after a conversion whose reader, if there is one, is closed so many times.
unfoldable pub after_closes : ℕ → Converted → ℕ
unfolding close_times
after_closes n c = temps_of n c.temps c.result

closed_stay :
    (n temps : ℕ) (x : Bytes) (r : Bool)
    → (close_times n temps (record { contents = x; closed = true; removable = r })).0 ≡ temps
unfolding close_times close_temp closing
closed_stay zero temps x r = refl
closed_stay (suc n) temps x r = closed_stay n temps x r

rewound_leaves :
    (b r : Bool) (temps n : ℕ) (body : Body)
    → after_closes (suc n) (rewound b r temps body) ≡ gone r temps
unfolding after_closes rewound close_times close_temp closing
rewound_leaves true r temps n body = closed_stay n (gone r temps) body.bytes r
rewound_leaves false r temps n body = refl

copied_leaves :
    (b w k r : Bool) (temps n : ℕ) (body : Body)
    → after_closes (suc n) (copied b w k r temps body) ≡ gone r temps
unfolding after_closes copied
copied_leaves true w k r temps n body = refl
copied_leaves false false k r temps n body = refl
copied_leaves false true k r temps n body = rewound_leaves k r temps n (close_body body)

gone_again : (r : Bool) (temps : ℕ) → gone r (suc temps) ≡ (if r then temps else suc temps)
gone_again true temps = omega arith
gone_again false temps = refl

-- The files that one conversion leaves behind, if it created one.
abbrev pub left : (creates removes : Bool) → ℕ → ℕ
left true removes temps = if removes then temps else suc temps
left false removes temps = temps

with_file_leaves :
    (b : Bool) (s : System) (temps n : ℕ) (body : Body)
    → after_closes (suc n) (with_file b s temps body) ≡ left b s.removes temps
unfolding after_closes with_file
with_file_leaves true s temps n body =
    copied_leaves body.breaks (s.writes body.bytes) s.seeks s.removes (suc temps) n body
    ∙ gone_again s.removes temps
with_file_leaves false s temps n body = refl

rewound-holds_body :
    (k r : Bool) (temps : ℕ) (body : Body) (f : TempFile)
    → (rewound k r temps (close_body body)).result ≡ inr f
    → f.contents ≡ body.bytes
unfolding rewound
rewound-holds_body true r temps body f h = cc
rewound-holds_body false r temps body f h = cc

copied-holds_body :
    (b w k r : Bool) (temps : ℕ) (body : Body) (f : TempFile)
    → (copied b w k r temps body).result ≡ inr f
    → (f.contents ≡ body.bytes) × (b ≡ false)
unfolding copied
copied-holds_body true w k r temps body f h = cc
copied-holds_body false false k r temps body f h = cc
copied-holds_body false true k r temps body f h = (rewound-holds_body k r temps body f h, refl)

with_file-holds_body :
    (b : Bool) (s : System) (temps : ℕ) (body : Body) (f : TempFile)
    → (with_file b s temps body).result ≡ inr f
    → (f.contents ≡ body.bytes) × (body.breaks ≡ false)
unfolding with_file
with_file-holds_body true s temps body f h =
    copied-holds_body body.breaks (s.writes body.bytes) s.seeks s.removes (suc temps) body f h
with_file-holds_body false s temps body f h = cc

-- Whatever fails, and however often the reader is closed, once at least, if it is there at all, as many
-- temporary files are on disk as before the conversion, if the system removes the file that was created.
-- If it does not, that file stays for good, however often the reader is closed again.
pub temp_files_go :
    (s : System) (temps n : ℕ) (body : Body)
    → after_closes (suc n) (to_read_seek_closer s temps body) ≡ left s.creates s.removes temps
unfolding to_read_seek_closer
temp_files_go s temps n body = with_file_leaves s.creates s temps n body

-- A reader that comes back holds the bytes of a body that did not break off.
pub reader_holds_body :
    (s : System) (temps : ℕ) (body : Body) (f : TempFile)
    → (to_read_seek_closer s temps body).result ≡ inr f
    → (f.contents ≡ body.bytes) × (body.breaks ≡ false)
unfolding to_read_seek_closer
reader_holds_body s temps body f h = with_file-holds_body s.creates s temps body f h
