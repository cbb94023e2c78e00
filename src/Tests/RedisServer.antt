-- ===== src/Tests/RedisServer.antt =====
-- A Redis server of strings and sets whose keys are dropped when they are due, and a codec of entries.
use Prim.Native.Char.{char, code}
use k8sagent_orchestrator.Prelude.{
  ℕ, zero, suc, ◌≤◌, ◌+◌, ◌/◌, ◌*◌, String, ◌≡◌, refl, ap, Bool, not, ◌&&◌, ◌||◌, Option, none,
  some, List, [], ◌∷◌, arith, ◌==◌, eq_iff, if◌then◌else◌, ltb, decimal, keep,
}
use k8sagent_orchestrator.Prelude.Int.{ℤ, pos, negsuc}
use k8sagent_orchestrator.Redis.{Redis, is_one_of}
use k8sagent_orchestrator.Redis.Live.{LiveLaws, is_due, due_at}
use k8sagent_orchestrator.Cache.{Value, int64, float64, other, Time}
use k8sagent_orchestrator.Cache.Redis.{EntryCodec}
use k8sagent_orchestrator.Cache.Redis.Log.{EntryCodecLaws}

pub record Server : Type 0 where
  pub clock : ℕ
  pub strings : String → Option String
  pub sets : String → List String
  pub dues : String → Option ℕ

abbrev nat : ℤ → ℕ
nat (pos n) = n
nat (negsuc n) = 0

abbrev added : String → List String → List String
added f fs = if is_one_of f fs then fs else f ∷ fs

-- SET counts in milliseconds, EXPIRE in seconds; both round down, and up to the first unit.
abbrev milliseconds : ℕ → ℕ
milliseconds n = if ltb n 1000000 then 1000000 else n / 1000000 * 1000000

abbrev seconds : ℕ → ℕ
seconds n = if ltb n 1000000000 then 1000000000 else n / 1000000000 * 1000000000

-- Commands on lists do nothing here.
abbrev pub server : Redis Server
server = record {
  set = λ k v ttl w. record w {
    strings = λ j. if k == j then some v else w.strings j;
    dues = λ j. if k == j then due_at milliseconds (nat ttl) w.clock else w.dues j;
  };
  get = λ k w. (w.strings k, w);
  del = λ ks w. record w {
    strings = λ j. if is_one_of j ks then none else w.strings j;
    sets = λ j. if is_one_of j ks then [] else w.sets j;
    dues = λ j. if is_one_of j ks then none else w.dues j;
  };
  expire = λ k ttl w. record w {
    dues = λ j. if k == j then some (w.clock + seconds (nat ttl)) else w.dues j;
  };
  sadd = λ k f w. record w { sets = λ j. if k == j then added f (w.sets j) else w.sets j };
  srem = λ k f w. record w {
    sets = λ j. if k == j then keep (λ g. not (f == g)) (w.sets j) else w.sets j;
  };
  smembers = λ k w. (some (w.sets k), w);
  rpush = λ k v w. w;
  ltrim = λ k from to w. w;
  lrange = λ k from to w. (none, w);
}

-- Time goes by, and what is due is dropped.
abbrev pass : ℕ → Server → Server
pass d w = record {
  clock = w.clock + d;
  strings = λ j. if is_due (w.dues j) (w.clock + d) then none else w.strings j;
  sets = λ j. if is_due (w.dues j) (w.clock + d) then [] else w.sets j;
  dues = λ j. if is_due (w.dues j) (w.clock + d) then none else w.dues j;
}

pub is_one_of-keep :
    (f g : String) (fs : List String)
    → is_one_of g (keep (λ h. not (f == h)) fs) ≡ (not (f == g) && is_one_of g fs)
is_one_of-keep f g [] = ground arith
is_one_of-keep f g (h ∷ fs) =
    ground (arith, is_one_of-keep f g fs, eq_iff f h, eq_iff f g, eq_iff h g)

pub milliseconds-seconds : (n : ℕ) → milliseconds n ≤ seconds (n * 2)
milliseconds-seconds n = ground arith

pub member-added :
    (k j f g : String) (sets : String → List String)
    → is_one_of g (if k == j then added f (sets j) else sets j)
      ≡ ((k == j && f == g) || is_one_of g (sets j))
member-added k j f g sets = ground (arith, eq_iff f g)

pub member-kept :
    (k j f g : String) (sets : String → List String)
    → is_one_of g (if k == j then keep (λ h. not (f == h)) (sets j) else sets j)
      ≡ (not (k == j && f == g) && is_one_of g (sets j))
member-kept k j f g sets = ground (arith, is_one_of-keep f g (sets j))

pub member-dropped :
    (t : Bool) (f : String) (fs : List String)
    → is_one_of f (if t then [] else fs) ≡ (not t && is_one_of f fs)
member-dropped t f fs = ground arith

unfoldable pub laws : LiveLaws server
laws = record {
  clock = λ w. w.clock;
  pass = pass;
  string = λ w k. w.strings k;
  member = λ w k f. is_one_of f (w.sets k);
  due = λ w k. w.dues k;
  set_life = milliseconds;
  expire_life = seconds;
  set_life-expire_life = milliseconds-seconds;
  get_lem = λ k w. refl;
  smembers_lem = λ k w. (w.sets k, refl, λ f. refl);
  clock-set = λ k v n w. refl;
  string-set = λ k v n w j. refl;
  due-set = λ k v n w j. refl;
  member-set = λ k v n w j f e. refl;
  clock-sadd = λ k f w. refl;
  string-sadd = λ k f w j e. refl;
  due-sadd = λ k f w j. refl;
  member-sadd = λ k f w j g. member-added k j f g w.sets;
  string-srem = λ k f w j e. refl;
  clock-srem = λ k f w. refl;
  member-srem = λ k f w j g. member-kept k j f g w.sets;
  due-srem = λ k f w j g e. refl;
  due-srem_other = λ k f w j e. refl;
  clock-expire = λ k n w. refl;
  due-expire = λ k n w f j m p. refl;
  string-expire = λ k n w j p. refl;
  member-expire = λ k n w j f p. refl;
  clock-del = λ ks w. refl;
  string-del = λ ks w j. refl;
  member-del = λ ks w j f. member-dropped (is_one_of j ks) f (w.sets j);
  due-del = λ ks w j. refl;
  clock-pass = λ d w. refl;
  string-pass = λ d w j. refl;
  member-pass = λ d w j f. member-dropped (is_due (w.dues j) (w.clock + d)) f (w.sets j);
  due-pass = λ d w j. refl;
}

-- `n` strokes and a dot, before a text.
pub tally : ℕ → String → String
tally zero s = String.◌∷◌ (char b'.' tt) s
tally (suc n) s = String.◌∷◌ (char b'1' tt) (tally n s)

-- The strokes up to the dot, and the text behind it.
pub counted : String → ℕ × String
counted String.[] = (0, "")
counted (String.◌∷◌ c s) =
    let (n, rest) = counted s in if ltb 46 (code c) then (suc n, rest) else (0, s)

counted-tally : (n : ℕ) (s : String) → counted (tally n s) ≡ (n, s)
unfolding tally counted
counted-tally zero s = refl
counted-tally (suc n) s = ap (λ (r : ℕ × String). (suc r.0, r.1)) (counted-tally n s)

abbrev expiry_text : Option Time → String → String
expiry_text none s = tally 0 s
expiry_text (some t) s = tally (suc t) s

abbrev expiry_of : ℕ → Option Time
expiry_of zero = none
expiry_of (suc t) = some t

abbrev value_text : Value → String
value_text (int64 i) = decimal (nat i)
value_text (float64 bits) = decimal bits
value_text (other s) = s

-- Values decode as texts; everything else of an entry is kept.
abbrev pub codec : EntryCodec
codec = record {
  marshal_value = λ v. some (value_text v);
  marshal_entry = λ e. some (tally e.created_at (expiry_text e.expires_at e.value));
  unmarshal_entry = λ s.
      let (created_at, rest) = counted s in
      let (life, value) = counted rest in
      some (record { value = value; created_at = created_at; expires_at = expiry_of life });
  unmarshal_value = other;
}

pub codec-entry :
    (v : String) (c : Time) (x : Option Time)
    → codec.unmarshal_entry (tally c (expiry_text x v))
      ≡ some (record { value = v; created_at = c; expires_at = x })
codec-entry v c none = rw (counted-tally c (tally 0 v)) (rw (counted-tally 0 v) refl)
codec-entry v c (some t) =
    rw (counted-tally c (tally (suc t) v)) (rw (counted-tally (suc t) v) refl)

unfoldable pub codec_laws : EntryCodecLaws codec
codec_laws = record {
  kept = λ v. other (value_text v);
  encoded_value = value_text;
  encoded = λ e. tally e.created_at (expiry_text e.expires_at e.value);
  marshal_value_lem = λ v. refl;
  marshal_entry_lem = λ e. refl;
  unmarshal_entry-encoded = λ e. codec-entry e.value e.created_at e.expires_at;
  unmarshal_value-encoded_value = λ v. refl;
}
