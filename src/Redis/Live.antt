-- ===== src/Redis/Live.antt =====
-- Strings and sets of a Redis server with lifetimes: what internal/cache/redis_cache.go relies on. Each
-- command is one step at a reading of the server's clock; `pass` is time that goes by between commands.
use k8sagent_orchestrator.Prelude.{
  ℕ, ◌+◌, ◌*◌, ◌≤◌, ◌<◌, String, ◌≡◌, Bool, true, false, not, ◌&&◌, ◌||◌, Option, none, some, List,
  ◌==◌, if◌then◌else◌, leb, ltb,
}
use k8sagent_orchestrator.Prelude.Int.{pos}
use k8sagent_orchestrator.Redis.{Redis, is_one_of}

-- A key that is due at a time is gone from then on.
abbrev pub is_due : Option ℕ → ℕ → Bool
is_due none now = false
is_due (some t) now = leb t now

-- The lifetime of a key that is set now: none where the duration is 0.
abbrev pub due_at : (ℕ → ℕ) → ℕ → ℕ → Option ℕ
due_at life n now = if ltb 0 n then some (now + life n) else none

pub record LiveLaws {W : Type 0} (redis : Redis W) : Type 0 where
  pub clock : W → ℕ
  pub pass : ℕ → W → W
  -- what is there now, and when it goes
  pub string : W → String → Option String
  pub member : W → String → String → Bool
  pub due : W → String → Option ℕ
  -- a duration as the client sends it, in milliseconds with SET and in seconds with EXPIRE
  pub set_life : ℕ → ℕ
  pub expire_life : ℕ → ℕ
  pub set_life-expire_life : (n : ℕ) → set_life n ≤ expire_life (n * 2)
  pub get_lem : (k : String) (w : W) → redis.get k w ≡ (string w k, w)
  pub smembers_lem :
      (k : String) (w : W)
      → (fs : List String) × (redis.smembers k w ≡ (some fs, w))
        × ((f : String) → is_one_of f fs ≡ member w k f)
  pub clock-set : (k v : String) (n : ℕ) (w : W) → clock (redis.set k v (pos n) w) ≡ clock w
  pub string-set :
      (k v : String) (n : ℕ) (w : W) (j : String)
      → string (redis.set k v (pos n) w) j ≡ (if k == j then some v else string w j)
  pub due-set :
      (k v : String) (n : ℕ) (w : W) (j : String)
      → due (redis.set k v (pos n) w) j ≡ (if k == j then due_at set_life n (clock w) else due w j)
  pub member-set :
      (k v : String) (n : ℕ) (w : W) (j f : String)
      → (k == j) ≡ false
      → member (redis.set k v (pos n) w) j f ≡ member w j f
  pub clock-sadd : (k f : String) (w : W) → clock (redis.sadd k f w) ≡ clock w
  pub string-sadd :
      (k f : String) (w : W) (j : String)
      → (k == j) ≡ false
      → string (redis.sadd k f w) j ≡ string w j
  pub due-sadd : (k f : String) (w : W) (j : String) → due (redis.sadd k f w) j ≡ due w j
  pub member-sadd :
      (k f : String) (w : W) (j g : String)
      → member (redis.sadd k f w) j g ≡ ((k == j && f == g) || member w j g)
  pub string-srem :
      (k f : String) (w : W) (j : String)
      → (k == j) ≡ false
      → string (redis.srem k f w) j ≡ string w j
  pub clock-srem : (k f : String) (w : W) → clock (redis.srem k f w) ≡ clock w
  pub member-srem :
      (k f : String) (w : W) (j g : String)
      → member (redis.srem k f w) j g ≡ (not (k == j && f == g) && member w j g)
  pub due-srem :
      (k f : String) (w : W) (j g : String)
      → member (redis.srem k f w) j g ≡ true
      → due (redis.srem k f w) j ≡ due w j
  pub due-srem_other :
      (k f : String) (w : W) (j : String) → (k == j) ≡ false → due (redis.srem k f w) j ≡ due w j
  -- EXPIRE of a set that is there
  pub clock-expire : (k : String) (n : ℕ) (w : W) → clock (redis.expire k (pos n) w) ≡ clock w
  pub due-expire :
      (k : String) (n : ℕ) (w : W) (f j : String)
      → member w k f ≡ true
      → 0 < n
      → due (redis.expire k (pos n) w) j
        ≡ (if k == j then some (clock w + expire_life n) else due w j)
  pub string-expire :
      (k : String) (n : ℕ) (w : W) (j : String)
      → 0 < n
      → string (redis.expire k (pos n) w) j ≡ string w j
  pub member-expire :
      (k : String) (n : ℕ) (w : W) (j f : String)
      → 0 < n
      → member (redis.expire k (pos n) w) j f ≡ member w j f
  pub clock-del : (ks : List String) (w : W) → clock (redis.del ks w) ≡ clock w
  pub string-del :
      (ks : List String) (w : W) (j : String)
      → string (redis.del ks w) j ≡ (if is_one_of j ks then none else string w j)
  pub member-del :
      (ks : List String) (w : W) (j f : String)
      → member (redis.del ks w) j f ≡ (not (is_one_of j ks) && member w j f)
  pub due-del :
      (ks : List String) (w : W) (j : String)
      → due (redis.del ks w) j ≡ (if is_one_of j ks then none else due w j)
  pub clock-pass : (d : ℕ) (w : W) → clock (pass d w) ≡ clock w + d
  pub string-pass :
      (d : ℕ) (w : W) (j : String)
      → string (pass d w) j ≡ (if is_due (due w j) (clock w + d) then none else string w j)
  pub member-pass :
      (d : ℕ) (w : W) (j f : String)
      → member (pass d w) j f ≡ (not (is_due (due w j) (clock w + d)) && member w j f)
  pub due-pass :
      (d : ℕ) (w : W) (j : String)
      → due (pass d w) j ≡ (if is_due (due w j) (clock w + d) then none else due w j)
