-- ===== src/Settings/Valid.antt =====
-- What settings that from_env accepts were read from.
use kernexys.Prelude.{
  suc, ◌≡◌, refl, String, Bool, true, false, Option, none, some, Result, ok, err, ◌>>=◌, ℤ, pos,
  negsuc, zero, arith, Bool-cases, inl, inr,
}
use mathlib.Core.Path.{subst}
use kernexys.Settings.{Settings, from_env, is_log_level, is_config_mode, post_init, checked_level}
use kernexys.Settings.Variables.{
  Unicode, Environment, getenv, int_of_text, positive_or_error, positive_int, int_from,
  boolean_from, boolean, strip, is_truth, is_falsehood,
}
use kernexys.Settings.Table.{IsInt, IsFlag, ints, flags, IntsRead, FlagsRead}

-- Whatever the call returns satisfies P.
abbrev pub Returns : {E A : Type 0} → Result E A → (A → Type 0) → Type 0
Returns {A = A} r P = (a : A) → r ≡ ok a → P a

pub bind-Returns :
    {E A B : Type 0} {P : A → Type 0} {Q : B → Type 0} (r : Result E A) (f : A → Result E B)
    → Returns r P
    → ((a : A) → P a → Returns (f a) Q)
    → Returns (r >>= f) Q
bind-Returns (ok a) f p q = q a (p a refl)
bind-Returns (err e) f p q = λ b h. absurd (cc)

pub ok-Returns : {E A : Type 0} (P : A → Type 0) (a : A) → P a → Returns {E = E} (ok a) P
ok-Returns {E} P a p = λ b h. let same : a ≡ b = ground arith in subst P same p

pub positive_int-IsInt :
    (u : Unicode) (env : Environment) (name : String) (default : ℤ)
    → Returns (positive_int u env name default) (λ v. IsInt u env name default v)
unfolding positive_int
positive_int-IsInt u env name default = by_text (env name) refl
  where
    by_int :
        (raw : String)
        → env name ≡ some raw
        → (o : Option ℤ) → int_of_text u raw ≡ o
        → Returns (positive_or_error name o) (λ v. IsInt u env name default v)
    by_int raw here none e = λ v h. absurd (cc)
    by_int raw here (some (negsuc n)) e = λ v h. absurd (cc)
    by_int raw here (some (pos zero)) e = λ v h. absurd (cc)
    by_int raw here (some (pos (suc n))) e =
        λ v h. IsInt.set raw (suc n) here e (omega arith) (ground arith)

    by_text :
        (o : Option String)
        → env name ≡ o
        → Returns (int_from u name default o) (λ v. IsInt u env name default v)
    by_text none gone = λ v h. IsInt.unset gone (ground arith)
    by_text (some raw) here = by_int raw here (int_of_text u raw) refl

boolean-IsFlag :
    (u : Unicode) (env : Environment) (name : String) (default : Bool)
    → Returns (boolean u env name default) (λ v. IsFlag u env name default v)
unfolding boolean
boolean-IsFlag u env name default = by_text (env name) refl
  where
    by_text :
        (o : Option String)
        → env name ≡ o
        → Returns (boolean_from u name default o) (λ v. IsFlag u env name default v)
    by_text none gone = λ v h. IsFlag.unset gone (ground arith)
    by_text (some raw) here = λ v h. elim (Bool-cases (is_truth (u.lower (strip u raw)))) [
      | inl truth ↦ IsFlag.on raw here truth (ground arith)
      | inr untrue ↦ elim (Bool-cases (is_falsehood (u.lower (strip u raw)))) [
        | inl falsehood ↦ IsFlag.off raw here falsehood (ground arith)
        | inr other ↦ absurd (ground arith)
      ]
    ]

checked_level-Returns :
    (level : String) → Returns (checked_level level) (λ v. (v ≡ level) × (is_log_level v ≡ true))
checked_level-Returns level = λ v h. elim (Bool-cases (is_log_level level)) [
  | inl good ↦ ground arith
  | inr bad ↦ absurd (ground arith)
]

post_init-Returns :
    (Q : Settings → Type 0) (s : Settings)
    → (is_config_mode s.kubernetes_config_mode ≡ true → Q s)
    → Returns (post_init s) Q
unfolding post_init
post_init-Returns Q s q = λ v h. elim (Bool-cases (is_config_mode s.kubernetes_config_mode)) [
  | inl good ↦ let same : s ≡ v = ground arith in subst Q same (q good)
  | inr bad ↦ absurd (ground arith)
]

module _ (u : Unicode) (env : Environment) where
  -- what the accepted settings have to do with the environment
  abbrev pub IsRead : Settings → Type 0
  IsRead s =
      IntsRead u env s ints
      × FlagsRead u env s flags
      × (s.log_level ≡ u.upper (getenv env "KERNEXYS_LOG_LEVEL" "INFO"))
      × (is_log_level s.log_level ≡ true)
      × (s.kubernetes_config_mode
          ≡ u.lower (getenv env "KERNEXYS_KUBERNETES_CONFIG_MODE" "in-cluster"))
      × (is_config_mode s.kubernetes_config_mode ≡ true)

  int :
      (name : String) (default : ℤ)
      → Returns (positive_int u env name default) (λ v. IsInt u env name default v)
  int name default = positive_int-IsInt u env name default

  flag :
      (name : String) (default : Bool)
      → Returns (boolean u env name default) (λ v. IsFlag u env name default v)
  flag name default = boolean-IsFlag u env name default

  -- When from_env returns settings, every one of the 17 numbers is its default if the variable
  -- is not set and otherwise the positive number that the variable's text says, each of the
  -- four flags is its default or what the text says, the log level is the variable's in upper
  -- case and one of the five, and the config mode is the variable's in lower case and one of
  -- the two.
  pub from_env-IsRead : (s : Settings) → from_env u env ≡ ok s → IsRead s
  unfolding from_env
  from_env-IsRead = bind-Returns _ _ (checked_level-Returns _) (λ level l.
      bind-Returns _ _ (int "KERNEXYS_MAX_REQUEST_BYTES" (pos 1048576)) (λ v0 i0.
        bind-Returns _ _ (int "KERNEXYS_DATABASE_POOL_SIZE" (pos 5)) (λ v1 i1.
          bind-Returns _ _ (int "KERNEXYS_DATABASE_MAX_OVERFLOW" (pos 5)) (λ v2 i2.
            bind-Returns _ _ (int "KERNEXYS_DATABASE_COMMAND_TIMEOUT_SECONDS" (pos 10)) (λ v3 i3.
              bind-Returns _ _ (int "KERNEXYS_READINESS_TIMEOUT_SECONDS" (pos 2)) (λ v4 i4.
                bind-Returns _ _ (int "KERNEXYS_SERVER_PORT" (pos 8000)) (λ v5 i5.
                  bind-Returns _ _ (int "KERNEXYS_SERVER_LIMIT_CONCURRENCY" (pos 100)) (λ v6 i6.
                    bind-Returns _ _ (int "KERNEXYS_SERVER_TIMEOUT_KEEP_ALIVE_SECONDS" (pos 5))
                      (λ v7 i7.
                        bind-Returns _ _
                          (int "KERNEXYS_SERVER_TIMEOUT_GRACEFUL_SHUTDOWN_SECONDS" (pos 20))
                          (λ v8 i8.
                            bind-Returns _ _ (flag "KERNEXYS_KUBERNETES_ENABLED" false) (λ v9 f9.
                              bind-Returns _ _
                                (int "KERNEXYS_KUBERNETES_REQUEST_TIMEOUT_SECONDS" (pos 5))
                                (λ v10 i10.
                                  bind-Returns _ _ (flag "KERNEXYS_ASYNC_INFERENCE_ENABLED" false)
                                    (λ v11 f11.
                                      bind-Returns _ _
                                        (int "KERNEXYS_ASYNC_QUEUE_CAPACITY" (pos 1000))
                                        (λ v12 i12.
                                          bind-Returns _ _
                                            (int "KERNEXYS_ASYNC_JOB_TTL_SECONDS" (pos 3600))
                                            (λ v13 i13.
                                              bind-Returns _ _
                                                (int "KERNEXYS_REDIS_SOCKET_TIMEOUT_SECONDS"
                                                  (pos 5))
                                                (λ v14 i14.
                                                  bind-Returns _ _
                                                    (int "KERNEXYS_ASYNC_WORKER_CONCURRENCY"
                                                      (pos 4))
                                                    (λ v15 i15.
                                                      bind-Returns _ _
                                                        (int
                                                          "KERNEXYS_ASYNC_INFERENCE_TIMEOUT_SECONDS"
                                                          (pos 30))
                                                        (λ v16 i16.
                                                          bind-Returns _ _
                                                            (int
                                                            "KERNEXYS_INFERENCE_TIMEOUT_SECONDS"
                                                            (pos 10))
                                                            (λ v17 i17.
                                                            bind-Returns _ _
                                                            (flag "KERNEXYS_METRICS_ENABLED" true)
                                                            (λ v18 f18.
                                                            bind-Returns _ _
                                                            (int "KERNEXYS_METRICS_PORT" (pos 8001))
                                                            (λ v19 i19.
                                                            bind-Returns _ _
                                                            (flag
                                                            "KERNEXYS_LOGGING_CORRELATION_ID_ENABLED"
                                                            true)
                                                            (λ v20 f20.
                                                            post_init-Returns IsRead _ (λ mode. (
                                                            (
                                                            i0,
                                                            (
                                                            i1,
                                                            (
                                                            i2,
                                                            (
                                                            i3,
                                                            (
                                                            i4,
                                                            (
                                                            i5,
                                                            (
                                                            i6,
                                                            (
                                                            i7,
                                                            (
                                                            i8,
                                                            (
                                                            i10,
                                                            (
                                                            i12,
                                                            (
                                                            i13,
                                                            (i14, (i15, (i16, (i17, (i19, tt))))),
                                                            ),
                                                            ),
                                                            ),
                                                            ),
                                                            ),
                                                            ),
                                                            ),
                                                            ),
                                                            ),
                                                            ),
                                                            ),
                                                            ),
                                                            (f9, (f11, (f18, (f20, tt)))),
                                                            l.0,
                                                            l.1,
                                                            refl,
                                                            mode,
                                                            ))))))))))))))))))))))))
