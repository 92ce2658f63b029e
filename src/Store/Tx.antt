-- ===== src/Store/Tx.antt =====
-- Transactions: a chain of queries on the tables that throws or answers. `$transaction` commits the
-- tables of a chain that answers and rolls those of one that throws back.
use my_build.Base.{◌≡◌, refl, Bool, true, false, Option, none, some}
use my_build.Errors.{HttpError, Result, ok, err, refuse, or_throw}
use my_build.Store.Tables.{Db}

abbrev pub Tx {ℓ} : Type ℓ → Type ℓ
Tx A = Db → Result (A × Db)

infixl 5 ◌>>=◌ ◌>>◌
abbrev pub ◌>>=◌ {ℓ κ} : {A : Type ℓ} {B : Type κ} → Tx A → (A → Tx B) → Tx B
◌>>=◌ m f db = elim (m db) [ err e ↦ err e | ok (a, db') ↦ f a db' ]

abbrev pub ◌>>◌ {ℓ} : {B : Type ℓ} → Tx (Unit {0}) → Tx B → Tx B
m >> k = m >>= λ _. k

abbrev pub return {ℓ} : {A : Type ℓ} → A → Tx A
return a db = ok (a, db)

abbrev pub throw {ℓ} : {A : Type ℓ} → HttpError → Tx A
throw e db = err e

abbrev pub lift {ℓ} : {A : Type ℓ} → Result A → Tx A
lift (ok a) db = ok (a, db)
lift (err e) db = err e

abbrev pub read {ℓ} : {A : Type ℓ} → (Db → A) → Tx A
read f db = ok (f db, db)

abbrev pub write : (Db → Db) → Tx (Unit {0})
write f db = ok (tt, f db)

-- A request answers or throws, and leaves the tables as its commits have made them.
abbrev pub Service {ℓ} : Type ℓ → Type ℓ
Service A = Db → Result A × Db

unfoldable pub transaction {ℓ} : {A : Type ℓ} → Tx A → Service A
transaction t db = elim (t db) [ err e ↦ (err e, db) | ok (a, db') ↦ (ok a, db') ]

bind_split {ℓ κ} :
    {A : Type ℓ} {B : Type κ} (x : Result (A × Db)) (f : A → Tx B) {r : B × Db}
    → (elim x [ err e ↦ err e | ok (a, db') ↦ f a db' ]) ≡ ok r
    → (a : A) × (mid : Db) × (x ≡ ok (a, mid)) × (f a mid ≡ ok r)
bind_split (ok (a, mid)) f h = (a, mid, refl, h)
bind_split (err e) f h = cc

-- Inversion of a chain that answers.
pub Tx-eq-ok {ℓ κ} :
    {A : Type ℓ} {B : Type κ} (m : Tx A) (f : A → Tx B) (db : Db) {r : B × Db}
    → (m >>= f) db ≡ ok r
    → (a : A) × (mid : Db) × (m db ≡ ok (a, mid)) × (f a mid ≡ ok r)
Tx-eq-ok m f db h = bind_split (m db) f h

-- A chain behind a guard answers only where the guard lets it.
pub refuse-eq-ok {ℓ} :
    {B : Type ℓ} (refused : Bool) (e : HttpError) (m : Tx B) (db : Db) {r : B × Db}
    → (lift (refuse refused e) >> m) db ≡ ok r
    → (refused ≡ false) × (m db ≡ ok r)
refuse-eq-ok true e m db h = cc
refuse-eq-ok false e m db h = (refl, h)

pub or_throw-eq-ok {ℓ κ} :
    {A : Type ℓ} {B : Type κ} (found : Option A) (e : HttpError) (m : A → Tx B) (db : Db)
    {r : B × Db}
    → (lift (or_throw found e) >>= m) db ≡ ok r
    → (a : A) × (found ≡ some a) × (m a db ≡ ok r)
or_throw-eq-ok none e m db h = cc
or_throw-eq-ok (some a) e m db h = (a, refl, h)

pub lift-eq-ok {ℓ} :
    {A : Type ℓ} (r : Result A) (db after : Db) {a : A}
    → lift r db ≡ ok (a, after)
    → (r ≡ ok a) × (after ≡ db)
lift-eq-ok (ok b) db after h = (cc, cc)
lift-eq-ok (err e) db after h = cc
