-- ===== src/Wire/Code.antt =====
-- tssd/tssd.go: the type codes, counted from `Tbase = 10`, as the bytes that stand for them.
use tssdgo.Prelude.{ℕ}

abbrev pub bool : ℕ
bool = 11

abbrev pub int8 : ℕ
int8 = 12

abbrev pub uint8 : ℕ
uint8 = 13

abbrev pub int16 : ℕ
int16 = 14

abbrev pub uint16 : ℕ
uint16 = 15

abbrev pub int32 : ℕ
int32 = 16

abbrev pub uint32 : ℕ
uint32 = 17

abbrev pub int64 : ℕ
int64 = 18

abbrev pub uint64 : ℕ
uint64 = 19

abbrev pub float32 : ℕ
float32 = 20

abbrev pub float64 : ℕ
float64 = 21

abbrev pub string : ℕ
string = 22

abbrev pub time : ℕ
time = 23

abbrev pub array : ℕ
array = 25

abbrev pub arraym : ℕ
arraym = 26

abbrev pub object : ℕ
object = 27

abbrev pub dict : ℕ
dict = 28

abbrev pub dictk : ℕ
dictk = 29

abbrev pub dictv : ℕ
dictv = 30

abbrev pub schema : ℕ
schema = 77
