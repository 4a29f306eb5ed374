-- ===== src/Trader/Expiry.antt =====
-- rust/corsair_trader/src/tte_cache.rs: the times to expiry, with the thread's cache as an argument.
-- An expiry is here the list of its UTF-8 bytes, and a slice inside a character is a panic, a case
-- of its own. chrono's calendar, the parsers of numbers and the clock are parameters.
use corsair.Base.{
  ℕ, ◌+◌, ◌*◌, Bool, ◌&&◌, ◌||◌, ltb, ◌⊎◌, ◌≡◌, refl, sym, ap, Option, none, some, [], arith,
  length, take, drop, ◌∷◌, if◌then◌else◌, nat_beq, leb, inl, inr, Option-cases, ◌<◌, ◌≤◌,
  Bool-cases,
}
use corsair.Base.Integers.{ℤ, pos}
use corsair.Base.Maps.{HashMap, get, insert, Holds, insert-Holds, length-insert_new}
use corsair.Float.{Float}
use corsair.Codec.Fields.{Text}
use corsair.Trader.State.{text_eq}

-- `D` is the type of the times of the calendar, `DateTime<Utc>`.
pub record Calendar (D : Type 0) : Type 0 where
  pub parse_i32 : Text → Option ℤ
  pub parse_u32 : Text → Option ℕ
  -- `with_ymd_and_hms(year, month, day, 21, 0, 0).single()`
  pub at_settlement : ℤ → ℕ → ℕ → Option D
  -- `(a - b).num_seconds()`
  pub seconds_between : D → D → ℤ

abbrev pub max_cache_entries : ℕ
max_cache_entries = 32

-- What the source returns, where it returns: `read a` is `Some(a)` and `unreadable` is `None`.
pub data Reading {ℓ} (A : Type ℓ) : Type ℓ where
  read : A → Reading A
  unreadable : Reading A
  panicked : Reading A

infixl 5 ◌>>=◌
abbrev ◌>>=◌ {ℓ κ} : {A : Type ℓ} {B : Type κ} → Reading A → (A → Reading B) → Reading B
read a >>= g = g a
unreadable >>= g = unreadable
panicked >>= g = panicked

Reading-cases {ℓ} :
    {A : Type ℓ} (r : Reading A) → (r ≡ unreadable) ⊎ (r ≡ panicked) ⊎ ((a : A) × (r ≡ read a))
Reading-cases (read a) = inr (inr (a, refl))
Reading-cases unreadable = inl refl
Reading-cases panicked = inr (inl refl)

-- `.ok()?` and `?`
abbrev from_option {ℓ} : {A : Type ℓ} → Option A → Reading A
from_option none = unreadable
from_option (some a) = read a

-- `(b as i8) >= -0x40`: a byte that does not continue a character.
abbrev starts_char : ℕ → Bool
starts_char b = ltb b 128 || leb 192 b

-- `str::is_char_boundary` at an index that is not 0
unfoldable pub is_char_boundary : ℕ → Text → Bool
is_char_boundary i s = elim (drop i s) [ [] ↦ nat_beq i (length s) | b ∷ rest ↦ starts_char b ]

-- `&s[from..from + count]`: a slice that begins or ends inside a character is a panic.
unfoldable pub slice : ℕ → ℕ → Text → Reading Text
unfolding is_char_boundary
slice from count s =
    if (nat_beq from 0 || is_char_boundary from s) && is_char_boundary (from + count) s
    then read (take count (drop from s))
    else panicked

module _ {D : Type 0} (cal : Calendar D) where
  unfoldable pub parse_ymd : Text → Reading D
  unfolding slice
  parse_ymd expiry = do
    year_text ← slice 0 4 expiry
    year ← from_option (cal.parse_i32 year_text)
    month_text ← slice 4 2 expiry
    month ← from_option (cal.parse_u32 month_text)
    day_text ← slice 6 2 expiry
    day ← from_option (cal.parse_u32 day_text)
    from_option (cal.at_settlement year month day)

  unfoldable pub parse_expiry : Text → Reading D
  unfolding parse_ymd
  parse_expiry expiry = if nat_beq (length expiry) 8 then parse_ymd expiry else unreadable

  abbrev pub room_in : HashMap Text D → HashMap Text D
  room_in cache = if leb max_cache_entries (length cache) then [] else cache

  -- The entry of an expiry that the cache lacks.
  unfoldable pub fill : Text → HashMap Text D → HashMap Text D × Reading D
  unfolding parse_expiry
  fill expiry room = elim (parse_expiry expiry) [
    | unreadable ↦ (room, unreadable)
    | panicked ↦ (room, panicked)
    | read dt ↦ (insert expiry dt room, read dt)
  ]

  unfoldable pub expiry_time : Text → HashMap Text D → HashMap Text D × Reading D
  unfolding fill
  expiry_time expiry cache = elim (get expiry cache) [
    | none ↦ fill expiry (room_in cache)
    | some dt ↦ (cache, read dt)
  ]

module _ {D F : Type 0} ⦃f : Float F⦄ (cal : Calendar D) where
  open f use {div, of_int}

  abbrev pub years_until : D → D → F
  years_until now expiry =
      div (of_int (cal.seconds_between expiry now)) (of_int (pos (365 * 24 * 3600)))

  abbrev pub until : D → Reading D → Reading F
  until now unreadable = unreadable
  until now panicked = panicked
  until now (read dt) = read (years_until now dt)

  unfoldable pub time_to_expiry_years : D → Text → HashMap Text D → HashMap Text D × Reading F
  unfolding expiry_time
  time_to_expiry_years now expiry cache =
      let (kept, dt) = expiry_time cal expiry cache in (kept, until now dt)

module _ {D : Type 0} (cal : Calendar D) where
  -- The cache holds what parsing yields, and no more than its bound.
  unfoldable pub IsCache : HashMap Text D → Type 0
  IsCache cache =
      Holds (λ expiry dt. parse_expiry cal expiry ≡ read dt) cache
      × (length cache ≤ max_cache_entries)

  cached :
      (expiry : Text) (dt : D) (cache : HashMap Text D)
      → IsCache cache
      → get expiry cache ≡ some dt
      → parse_expiry cal expiry ≡ read dt
  unfolding IsCache
  cached expiry dt cache h found = h.0 expiry dt found

  room_in-IsCache :
      (cache : HashMap Text D)
      → IsCache cache
      → IsCache (room_in cal cache) × (length (room_in cal cache) < max_cache_entries)
  unfolding IsCache get
  room_in-IsCache cache (h, bound) = elim (Bool-cases (leb max_cache_entries (length cache))) [
    | inl full ↦ rw full ((λ k v found. absurd (cc found), omega arith), omega arith)
    | inr room ↦ rw room ((h, bound), ground (arith, room))
  ]

  room_in-get :
      (expiry : Text) (cache : HashMap Text D)
      → get expiry cache ≡ none
      → get expiry (room_in cal cache) ≡ none
  unfolding get
  room_in-get expiry cache h = ground arith

  fill-IsCache :
      (expiry : Text) (room : HashMap Text D)
      → get expiry room ≡ none
      → IsCache room
      → length room < max_cache_entries
      → ((fill cal expiry room).1 ≡ parse_expiry cal expiry) × IsCache (fill cal expiry room).0
  unfolding fill IsCache
  fill-IsCache expiry room new (h, bound) free = elim (Reading-cases (parse_expiry cal expiry)) [
    | inl bad ↦ rw (bad, fill) (refl, (h, bound))
    | inr (inl bad) ↦ rw (bad, fill) (refl, (h, bound))
    | inr (inr (dt, good)) ↦
        rw (good, fill)
          (
            refl,
            (
              insert-Holds (λ e d. parse_expiry cal e ≡ read d) expiry dt room h good,
              omega (arith, length-insert_new expiry dt room new),
            ),
          )
  ]

  expiry_time-eq :
      (expiry : Text) (cache : HashMap Text D)
      → IsCache cache
      → ((expiry_time cal expiry cache).1 ≡ parse_expiry cal expiry)
        × IsCache (expiry_time cal expiry cache).0
  unfolding expiry_time
  expiry_time-eq expiry cache h = elim (Option-cases (get expiry cache)) [
    | inr (dt, found) ↦ rw (found, expiry_time) (sym (cached expiry dt cache h found), h)
    | inl absent ↦
        let (room, free) = room_in-IsCache cache h in
        rw (absent, expiry_time)
          (fill-IsCache expiry (room_in cal cache) (room_in-get expiry cache absent) room free)
  ]

module _ {D F : Type 0} ⦃f : Float F⦄ (cal : Calendar D) where
  -- The cache does not show: from a cache that holds what parsing yields and at most its bound of
  -- entries, the outcome is that of parsing the text anew: the time to the parsed expiry, nothing for
  -- a text that does not parse, a panic where a slice of its bytes cuts a character. In each case the
  -- cache that is left is such a cache again.
  pub time_to_expiry_years-eq :
      (now : D) (expiry : Text) (cache : HashMap Text D)
      → IsCache cal cache
      → ((time_to_expiry_years {F = F} cal now expiry cache).1
          ≡ until cal now (parse_expiry cal expiry))
        × IsCache cal (time_to_expiry_years {F = F} cal now expiry cache).0
  unfolding time_to_expiry_years
  time_to_expiry_years-eq now expiry cache h =
      let (same, kept) = expiry_time-eq cal expiry cache h in (ap (until cal now) same, kept)
