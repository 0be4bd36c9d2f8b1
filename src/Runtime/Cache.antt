-- ===== src/Runtime/Cache.antt =====
-- internal/redis/redis.go: the Redis commands that the services call. An expired key is absent.
use pay_fast_processor.Prelude.{
  ℕ, ◌+◌, String, Bool, true, false, Option, none, some, List, [], ◌∷◌, ltb, ◌==◌, if◌then◌else◌,
  is_some,
}
use pay_fast_processor.Store.Sql.{ok, err}
use pay_fast_processor.Runtime.Json.{cache_down}
use pay_fast_processor.Runtime.World.{Env, World, locked, counter, CacheEntry}
use pay_fast_processor.Runtime.Act.{Act, next_call}

abbrev pub Cache : Type 0
Cache = List (String × CacheEntry)

abbrev is_live : ℕ → Option ℕ → Bool
is_live now none = true
is_live now (some t) = ltb now t

abbrev live_entry : ℕ → CacheEntry → Option CacheEntry
live_entry now e = if is_live now e.expires then some e else none

unfoldable pub get : ℕ → String → Cache → Option CacheEntry
get now k [] = none
get now k ((j, e) ∷ c) = if j == k then live_entry now e else get now k c

unfoldable pub remove : String → Cache → Cache
remove k [] = []
remove k ((j, e) ∷ c) = if j == k then remove k c else (j, e) ∷ remove k c

abbrev pub put : String → CacheEntry → Cache → Cache
put k e c = (k, e) ∷ remove k c

module _ (env : Env) where
  -- `SetNX(key, "locked", seconds)`.
  unfoldable pub set_nx : String → ℕ → Act Bool
  set_nx k seconds w =
      if env.fails w.tick
      then (err cache_down, next_call w)
      else if is_some (get w.now k w.cache)
      then (ok false, next_call w)
      else (
        ok true,
        record w {
          cache = put k (record { value = locked; expires = some (w.now + seconds) }) w.cache;
          tick = w.tick + 1;
        },
      )

  -- `Del(key)`.
  unfoldable pub del : String → Act Unit
  del k w =
      if env.fails w.tick
      then (err cache_down, next_call w)
      else (ok tt, record w { cache = remove k w.cache; tick = w.tick + 1 })

  abbrev pub counted : String → Option CacheEntry → Act ℕ
  counted k none w =
      (ok 1, record w { cache = put k (record { value = counter 1; expires = none }) w.cache })
  counted k (some e) w = elim e.value [
    | locked ↦ (err cache_down, w)
    | counter n ↦ (
      ok (n + 1),
      record w { cache = put k (record { value = counter (n + 1); expires = e.expires }) w.cache },
    )
  ]

  -- `Incr(key)`: a key that is absent counts from 0, and the expiry stays.
  unfoldable pub incr : String → Act ℕ
  incr k w =
      if env.fails w.tick
      then (err cache_down, next_call w)
      else counted k (get w.now k w.cache) (next_call w)

  abbrev pub expiring : String → ℕ → Option CacheEntry → World → World
  expiring k t none w = w
  expiring k t (some e) w = record w {
    cache = put k (record { value = e.value; expires = some t }) w.cache;
  }

  -- `Expire(key, seconds)`.
  unfoldable pub expire : String → ℕ → Act Unit
  expire k seconds w =
      if env.fails w.tick
      then (err cache_down, next_call w)
      else (ok tt, expiring k (w.now + seconds) (get w.now k w.cache) (next_call w))
