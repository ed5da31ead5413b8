-- ===== src/Isa/Opcode.antt =====
-- common/opcode.h: the opcodes of the default instruction set.
use sicxe.Base.{ℕ}

abbrev pub clear : ℕ
clear = 0xb4

abbrev pub rmo : ℕ
rmo = 0xac

abbrev pub add : ℕ
add = 0x18

abbrev pub sub : ℕ
sub = 0x1c

abbrev pub mul : ℕ
mul = 0x20

abbrev pub div : ℕ
div = 0x24

abbrev pub and : ℕ
and = 0x40

abbrev pub or : ℕ
or = 0x44

abbrev pub addr : ℕ
addr = 0x90

abbrev pub subr : ℕ
subr = 0x94

abbrev pub mulr : ℕ
mulr = 0x98

abbrev pub divr : ℕ
divr = 0x9c

abbrev pub shiftl : ℕ
shiftl = 0xa4

abbrev pub shiftr : ℕ
shiftr = 0xa8

abbrev pub comp : ℕ
comp = 0x28

abbrev pub compr : ℕ
compr = 0xa0

abbrev pub tix : ℕ
tix = 0x2c

abbrev pub tixr : ℕ
tixr = 0xb8

abbrev pub j : ℕ
j = 0x3c

abbrev pub jeq : ℕ
jeq = 0x30

abbrev pub jgt : ℕ
jgt = 0x34

abbrev pub jlt : ℕ
jlt = 0x38

abbrev pub jsub : ℕ
jsub = 0x48

abbrev pub rsub : ℕ
rsub = 0x4c

abbrev pub ldch : ℕ
ldch = 0x50

abbrev pub stch : ℕ
stch = 0x54

abbrev pub stsw : ℕ
stsw = 0xe8

abbrev pub lda : ℕ
lda = 0x00

abbrev pub ldb : ℕ
ldb = 0x68

abbrev pub ldl : ℕ
ldl = 0x08

abbrev pub lds : ℕ
lds = 0x6c

abbrev pub ldt : ℕ
ldt = 0x74

abbrev pub ldx : ℕ
ldx = 0x04

abbrev pub sta : ℕ
sta = 0x0c

abbrev pub stb : ℕ
stb = 0x78

abbrev pub stl : ℕ
stl = 0x14

abbrev pub sts : ℕ
sts = 0x7c

abbrev pub stt : ℕ
stt = 0x84

abbrev pub stx : ℕ
stx = 0x10

abbrev pub td : ℕ
td = 0xe0

abbrev pub rd : ℕ
rd = 0xd8

abbrev pub wd : ℕ
wd = 0xdc

abbrev pub fix : ℕ
fix = 0xc4

abbrev pub float : ℕ
float = 0xc0

abbrev pub addf : ℕ
addf = 0x58

abbrev pub subf : ℕ
subf = 0x5c

abbrev pub mulf : ℕ
mulf = 0x60

abbrev pub divf : ℕ
divf = 0x64

abbrev pub compf : ℕ
compf = 0x88

abbrev pub ldf : ℕ
ldf = 0x70

abbrev pub stf : ℕ
stf = 0x80

abbrev pub xor : ℕ
xor = 0xf0

abbrev pub andr : ℕ
andr = 0xf4

abbrev pub orr : ℕ
orr = 0xf5

abbrev pub xorr : ℕ
xorr = 0xf6

abbrev pub not : ℕ
not = 0xf7

abbrev pub eint : ℕ
eint = 0xf8

abbrev pub dint : ℕ
dint = 0xf9

abbrev pub rint : ℕ
rint = 0xfa

abbrev pub stil : ℕ
stil = 0xfc
