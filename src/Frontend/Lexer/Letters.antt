-- ===== src/Frontend/Lexer/Letters.antt =====
-- frontend/UnicodeLetters.h: the ranges of letters, combining marks and decimal digits, and the
-- binary search in them. The array stands in four parts, joined in their order.
use proto_scala.Common.{
  ℕ, zero, suc, ◌+◌, ◌-◌, ◌/◌, Bool, true, false, ltb, if◌then◌else◌, List, [], ◌∷◌, ◌++◌, ◌⊎◌, inl,
  inr, Option, none, some, length, get_elem?,
}

-- `CodePointRange`: the first and the last code point.
abbrev pub CodePointRange : Type 0
CodePointRange = ℕ × ℕ

abbrev ranges_a : List CodePointRange
ranges_a =
    (170, 170)
    ∷ (181, 181)
    ∷ (186, 186)
    ∷ (192, 214)
    ∷ (216, 246)
    ∷ (248, 705)
    ∷ (710, 721)
    ∷ (736, 740)
    ∷ (748, 748)
    ∷ (750, 750)
    ∷ (768, 884)
    ∷ (886, 887)
    ∷ (890, 893)
    ∷ (895, 895)
    ∷ (902, 902)
    ∷ (904, 906)
    ∷ (908, 908)
    ∷ (910, 929)
    ∷ (931, 1013)
    ∷ (1015, 1153)
    ∷ (1155, 1327)
    ∷ (1329, 1366)
    ∷ (1369, 1369)
    ∷ (1376, 1416)
    ∷ (1425, 1469)
    ∷ (1471, 1471)
    ∷ (1473, 1474)
    ∷ (1476, 1477)
    ∷ (1479, 1479)
    ∷ (1488, 1514)
    ∷ (1519, 1522)
    ∷ (1552, 1562)
    ∷ (1568, 1641)
    ∷ (1646, 1747)
    ∷ (1749, 1756)
    ∷ (1759, 1768)
    ∷ (1770, 1788)
    ∷ (1791, 1791)
    ∷ (1808, 1866)
    ∷ (1869, 1969)
    ∷ (1984, 2037)
    ∷ (2042, 2042)
    ∷ (2045, 2045)
    ∷ (2048, 2093)
    ∷ (2112, 2139)
    ∷ (2144, 2154)
    ∷ (2160, 2183)
    ∷ (2185, 2190)
    ∷ (2199, 2273)
    ∷ (2275, 2403)
    ∷ (2406, 2415)
    ∷ (2417, 2435)
    ∷ (2437, 2444)
    ∷ (2447, 2448)
    ∷ (2451, 2472)
    ∷ (2474, 2480)
    ∷ (2482, 2482)
    ∷ (2486, 2489)
    ∷ (2492, 2500)
    ∷ (2503, 2504)
    ∷ (2507, 2510)
    ∷ (2519, 2519)
    ∷ (2524, 2525)
    ∷ (2527, 2531)
    ∷ (2534, 2545)
    ∷ (2556, 2556)
    ∷ (2558, 2558)
    ∷ (2561, 2563)
    ∷ (2565, 2570)
    ∷ (2575, 2576)
    ∷ (2579, 2600)
    ∷ (2602, 2608)
    ∷ (2610, 2611)
    ∷ (2613, 2614)
    ∷ (2616, 2617)
    ∷ (2620, 2620)
    ∷ (2622, 2626)
    ∷ (2631, 2632)
    ∷ (2635, 2637)
    ∷ (2641, 2641)
    ∷ (2649, 2652)
    ∷ (2654, 2654)
    ∷ (2662, 2677)
    ∷ (2689, 2691)
    ∷ (2693, 2701)
    ∷ (2703, 2705)
    ∷ (2707, 2728)
    ∷ (2730, 2736)
    ∷ (2738, 2739)
    ∷ (2741, 2745)
    ∷ (2748, 2757)
    ∷ (2759, 2761)
    ∷ (2763, 2765)
    ∷ (2768, 2768)
    ∷ (2784, 2787)
    ∷ (2790, 2799)
    ∷ (2809, 2815)
    ∷ (2817, 2819)
    ∷ (2821, 2828)
    ∷ (2831, 2832)
    ∷ (2835, 2856)
    ∷ (2858, 2864)
    ∷ (2866, 2867)
    ∷ (2869, 2873)
    ∷ (2876, 2884)
    ∷ (2887, 2888)
    ∷ (2891, 2893)
    ∷ (2901, 2903)
    ∷ (2908, 2909)
    ∷ (2911, 2915)
    ∷ (2918, 2927)
    ∷ (2929, 2929)
    ∷ (2946, 2947)
    ∷ (2949, 2954)
    ∷ (2958, 2960)
    ∷ (2962, 2965)
    ∷ (2969, 2970)
    ∷ (2972, 2972)
    ∷ (2974, 2975)
    ∷ (2979, 2980)
    ∷ (2984, 2986)
    ∷ (2990, 3001)
    ∷ (3006, 3010)
    ∷ (3014, 3016)
    ∷ (3018, 3021)
    ∷ (3024, 3024)
    ∷ (3031, 3031)
    ∷ (3046, 3055)
    ∷ (3072, 3084)
    ∷ (3086, 3088)
    ∷ (3090, 3112)
    ∷ (3114, 3129)
    ∷ (3132, 3140)
    ∷ (3142, 3144)
    ∷ (3146, 3149)
    ∷ (3157, 3158)
    ∷ (3160, 3162)
    ∷ (3165, 3165)
    ∷ (3168, 3171)
    ∷ (3174, 3183)
    ∷ (3200, 3203)
    ∷ (3205, 3212)
    ∷ (3214, 3216)
    ∷ (3218, 3240)
    ∷ (3242, 3251)
    ∷ (3253, 3257)
    ∷ (3260, 3268)
    ∷ (3270, 3272)
    ∷ (3274, 3277)
    ∷ (3285, 3286)
    ∷ (3293, 3294)
    ∷ (3296, 3299)
    ∷ (3302, 3311)
    ∷ (3313, 3315)
    ∷ (3328, 3340)
    ∷ (3342, 3344)
    ∷ (3346, 3396)
    ∷ (3398, 3400)
    ∷ (3402, 3406)
    ∷ (3412, 3415)
    ∷ (3423, 3427)
    ∷ (3430, 3439)
    ∷ (3450, 3455)
    ∷ (3457, 3459)
    ∷ (3461, 3478)
    ∷ (3482, 3505)
    ∷ (3507, 3515)
    ∷ (3517, 3517)
    ∷ (3520, 3526)
    ∷ (3530, 3530)
    ∷ (3535, 3540)
    ∷ (3542, 3542)
    ∷ (3544, 3551)
    ∷ (3558, 3567)
    ∷ (3570, 3571)
    ∷ (3585, 3642)
    ∷ (3648, 3662)
    ∷ (3664, 3673)
    ∷ (3713, 3714)
    ∷ (3716, 3716)
    ∷ (3718, 3722)
    ∷ (3724, 3747)
    ∷ (3749, 3749)
    ∷ (3751, 3773)
    ∷ (3776, 3780)
    ∷ (3782, 3782)
    ∷ (3784, 3790)
    ∷ (3792, 3801)
    ∷ (3804, 3807)
    ∷ (3840, 3840)
    ∷ (3864, 3865)
    ∷ (3872, 3881)
    ∷ (3893, 3893)
    ∷ (3895, 3895)
    ∷ (3897, 3897)
    ∷ (3902, 3911)
    ∷ (3913, 3948)
    ∷ (3953, 3972)
    ∷ (3974, 3991)
    ∷ (3993, 4028)
    ∷ []

abbrev ranges_b : List CodePointRange
ranges_b =
    (4038, 4038)
    ∷ (4096, 4169)
    ∷ (4176, 4253)
    ∷ (4256, 4293)
    ∷ (4295, 4295)
    ∷ (4301, 4301)
    ∷ (4304, 4346)
    ∷ (4348, 4680)
    ∷ (4682, 4685)
    ∷ (4688, 4694)
    ∷ (4696, 4696)
    ∷ (4698, 4701)
    ∷ (4704, 4744)
    ∷ (4746, 4749)
    ∷ (4752, 4784)
    ∷ (4786, 4789)
    ∷ (4792, 4798)
    ∷ (4800, 4800)
    ∷ (4802, 4805)
    ∷ (4808, 4822)
    ∷ (4824, 4880)
    ∷ (4882, 4885)
    ∷ (4888, 4954)
    ∷ (4957, 4959)
    ∷ (4992, 5007)
    ∷ (5024, 5109)
    ∷ (5112, 5117)
    ∷ (5121, 5740)
    ∷ (5743, 5759)
    ∷ (5761, 5786)
    ∷ (5792, 5866)
    ∷ (5873, 5880)
    ∷ (5888, 5909)
    ∷ (5919, 5940)
    ∷ (5952, 5971)
    ∷ (5984, 5996)
    ∷ (5998, 6000)
    ∷ (6002, 6003)
    ∷ (6016, 6099)
    ∷ (6103, 6103)
    ∷ (6108, 6109)
    ∷ (6112, 6121)
    ∷ (6155, 6157)
    ∷ (6159, 6169)
    ∷ (6176, 6264)
    ∷ (6272, 6314)
    ∷ (6320, 6389)
    ∷ (6400, 6430)
    ∷ (6432, 6443)
    ∷ (6448, 6459)
    ∷ (6470, 6509)
    ∷ (6512, 6516)
    ∷ (6528, 6571)
    ∷ (6576, 6601)
    ∷ (6608, 6617)
    ∷ (6656, 6683)
    ∷ (6688, 6750)
    ∷ (6752, 6780)
    ∷ (6783, 6793)
    ∷ (6800, 6809)
    ∷ (6823, 6823)
    ∷ (6832, 6862)
    ∷ (6912, 6988)
    ∷ (6992, 7001)
    ∷ (7019, 7027)
    ∷ (7040, 7155)
    ∷ (7168, 7223)
    ∷ (7232, 7241)
    ∷ (7245, 7293)
    ∷ (7296, 7306)
    ∷ (7312, 7354)
    ∷ (7357, 7359)
    ∷ (7376, 7378)
    ∷ (7380, 7418)
    ∷ (7424, 7957)
    ∷ (7960, 7965)
    ∷ (7968, 8005)
    ∷ (8008, 8013)
    ∷ (8016, 8023)
    ∷ (8025, 8025)
    ∷ (8027, 8027)
    ∷ (8029, 8029)
    ∷ (8031, 8061)
    ∷ (8064, 8116)
    ∷ (8118, 8124)
    ∷ (8126, 8126)
    ∷ (8130, 8132)
    ∷ (8134, 8140)
    ∷ (8144, 8147)
    ∷ (8150, 8155)
    ∷ (8160, 8172)
    ∷ (8178, 8180)
    ∷ (8182, 8188)
    ∷ (8305, 8305)
    ∷ (8319, 8319)
    ∷ (8336, 8348)
    ∷ (8400, 8432)
    ∷ (8450, 8450)
    ∷ (8455, 8455)
    ∷ (8458, 8467)
    ∷ (8469, 8469)
    ∷ (8473, 8477)
    ∷ (8484, 8484)
    ∷ (8486, 8486)
    ∷ (8488, 8488)
    ∷ (8490, 8493)
    ∷ (8495, 8505)
    ∷ (8508, 8511)
    ∷ (8517, 8521)
    ∷ (8526, 8526)
    ∷ (8579, 8580)
    ∷ (11264, 11492)
    ∷ (11499, 11507)
    ∷ (11520, 11557)
    ∷ (11559, 11559)
    ∷ (11565, 11565)
    ∷ (11568, 11623)
    ∷ (11631, 11631)
    ∷ (11647, 11670)
    ∷ (11680, 11686)
    ∷ (11688, 11694)
    ∷ (11696, 11702)
    ∷ (11704, 11710)
    ∷ (11712, 11718)
    ∷ (11720, 11726)
    ∷ (11728, 11734)
    ∷ (11736, 11742)
    ∷ (11744, 11775)
    ∷ (11823, 11823)
    ∷ (12293, 12294)
    ∷ (12330, 12335)
    ∷ (12337, 12341)
    ∷ (12347, 12348)
    ∷ (12353, 12438)
    ∷ (12441, 12442)
    ∷ (12445, 12447)
    ∷ (12449, 12538)
    ∷ (12540, 12543)
    ∷ (12549, 12591)
    ∷ (12593, 12686)
    ∷ (12704, 12735)
    ∷ (12784, 12799)
    ∷ (13312, 19903)
    ∷ (19968, 42124)
    ∷ (42192, 42237)
    ∷ (42240, 42508)
    ∷ (42512, 42539)
    ∷ (42560, 42610)
    ∷ (42612, 42621)
    ∷ (42623, 42725)
    ∷ (42736, 42737)
    ∷ (42775, 42783)
    ∷ (42786, 42888)
    ∷ (42891, 42957)
    ∷ (42960, 42961)
    ∷ (42963, 42963)
    ∷ (42965, 42972)
    ∷ (42994, 43047)
    ∷ (43052, 43052)
    ∷ (43072, 43123)
    ∷ (43136, 43205)
    ∷ (43216, 43225)
    ∷ (43232, 43255)
    ∷ (43259, 43259)
    ∷ (43261, 43309)
    ∷ (43312, 43347)
    ∷ (43360, 43388)
    ∷ (43392, 43456)
    ∷ (43471, 43481)
    ∷ (43488, 43518)
    ∷ (43520, 43574)
    ∷ (43584, 43597)
    ∷ (43600, 43609)
    ∷ (43616, 43638)
    ∷ (43642, 43714)
    ∷ (43739, 43741)
    ∷ (43744, 43759)
    ∷ (43762, 43766)
    ∷ (43777, 43782)
    ∷ (43785, 43790)
    ∷ (43793, 43798)
    ∷ (43808, 43814)
    ∷ (43816, 43822)
    ∷ (43824, 43866)
    ∷ (43868, 43881)
    ∷ (43888, 44010)
    ∷ (44012, 44013)
    ∷ (44016, 44025)
    ∷ (44032, 55203)
    ∷ (55216, 55238)
    ∷ (55243, 55291)
    ∷ (63744, 64109)
    ∷ (64112, 64217)
    ∷ (64256, 64262)
    ∷ (64275, 64279)
    ∷ (64285, 64296)
    ∷ (64298, 64310)
    ∷ (64312, 64316)
    ∷ (64318, 64318)
    ∷ (64320, 64321)
    ∷ []

abbrev ranges_c : List CodePointRange
ranges_c =
    (64323, 64324)
    ∷ (64326, 64433)
    ∷ (64467, 64829)
    ∷ (64848, 64911)
    ∷ (64914, 64967)
    ∷ (65008, 65019)
    ∷ (65024, 65039)
    ∷ (65056, 65071)
    ∷ (65136, 65140)
    ∷ (65142, 65276)
    ∷ (65296, 65305)
    ∷ (65313, 65338)
    ∷ (65345, 65370)
    ∷ (65382, 65470)
    ∷ (65474, 65479)
    ∷ (65482, 65487)
    ∷ (65490, 65495)
    ∷ (65498, 65500)
    ∷ (65536, 65547)
    ∷ (65549, 65574)
    ∷ (65576, 65594)
    ∷ (65596, 65597)
    ∷ (65599, 65613)
    ∷ (65616, 65629)
    ∷ (65664, 65786)
    ∷ (66045, 66045)
    ∷ (66176, 66204)
    ∷ (66208, 66256)
    ∷ (66272, 66272)
    ∷ (66304, 66335)
    ∷ (66349, 66368)
    ∷ (66370, 66377)
    ∷ (66384, 66426)
    ∷ (66432, 66461)
    ∷ (66464, 66499)
    ∷ (66504, 66511)
    ∷ (66560, 66717)
    ∷ (66720, 66729)
    ∷ (66736, 66771)
    ∷ (66776, 66811)
    ∷ (66816, 66855)
    ∷ (66864, 66915)
    ∷ (66928, 66938)
    ∷ (66940, 66954)
    ∷ (66956, 66962)
    ∷ (66964, 66965)
    ∷ (66967, 66977)
    ∷ (66979, 66993)
    ∷ (66995, 67001)
    ∷ (67003, 67004)
    ∷ (67008, 67059)
    ∷ (67072, 67382)
    ∷ (67392, 67413)
    ∷ (67424, 67431)
    ∷ (67456, 67461)
    ∷ (67463, 67504)
    ∷ (67506, 67514)
    ∷ (67584, 67589)
    ∷ (67592, 67592)
    ∷ (67594, 67637)
    ∷ (67639, 67640)
    ∷ (67644, 67644)
    ∷ (67647, 67669)
    ∷ (67680, 67702)
    ∷ (67712, 67742)
    ∷ (67808, 67826)
    ∷ (67828, 67829)
    ∷ (67840, 67861)
    ∷ (67872, 67897)
    ∷ (67968, 68023)
    ∷ (68030, 68031)
    ∷ (68096, 68099)
    ∷ (68101, 68102)
    ∷ (68108, 68115)
    ∷ (68117, 68119)
    ∷ (68121, 68149)
    ∷ (68152, 68154)
    ∷ (68159, 68159)
    ∷ (68192, 68220)
    ∷ (68224, 68252)
    ∷ (68288, 68295)
    ∷ (68297, 68326)
    ∷ (68352, 68405)
    ∷ (68416, 68437)
    ∷ (68448, 68466)
    ∷ (68480, 68497)
    ∷ (68608, 68680)
    ∷ (68736, 68786)
    ∷ (68800, 68850)
    ∷ (68864, 68903)
    ∷ (68912, 68921)
    ∷ (68928, 68965)
    ∷ (68969, 68973)
    ∷ (68975, 68997)
    ∷ (69248, 69289)
    ∷ (69291, 69292)
    ∷ (69296, 69297)
    ∷ (69314, 69316)
    ∷ (69372, 69404)
    ∷ (69415, 69415)
    ∷ (69424, 69456)
    ∷ (69488, 69509)
    ∷ (69552, 69572)
    ∷ (69600, 69622)
    ∷ (69632, 69702)
    ∷ (69734, 69749)
    ∷ (69759, 69818)
    ∷ (69826, 69826)
    ∷ (69840, 69864)
    ∷ (69872, 69881)
    ∷ (69888, 69940)
    ∷ (69942, 69951)
    ∷ (69956, 69959)
    ∷ (69968, 70003)
    ∷ (70006, 70006)
    ∷ (70016, 70084)
    ∷ (70089, 70092)
    ∷ (70094, 70106)
    ∷ (70108, 70108)
    ∷ (70144, 70161)
    ∷ (70163, 70199)
    ∷ (70206, 70209)
    ∷ (70272, 70278)
    ∷ (70280, 70280)
    ∷ (70282, 70285)
    ∷ (70287, 70301)
    ∷ (70303, 70312)
    ∷ (70320, 70378)
    ∷ (70384, 70393)
    ∷ (70400, 70403)
    ∷ (70405, 70412)
    ∷ (70415, 70416)
    ∷ (70419, 70440)
    ∷ (70442, 70448)
    ∷ (70450, 70451)
    ∷ (70453, 70457)
    ∷ (70459, 70468)
    ∷ (70471, 70472)
    ∷ (70475, 70477)
    ∷ (70480, 70480)
    ∷ (70487, 70487)
    ∷ (70493, 70499)
    ∷ (70502, 70508)
    ∷ (70512, 70516)
    ∷ (70528, 70537)
    ∷ (70539, 70539)
    ∷ (70542, 70542)
    ∷ (70544, 70581)
    ∷ (70583, 70592)
    ∷ (70594, 70594)
    ∷ (70597, 70597)
    ∷ (70599, 70602)
    ∷ (70604, 70611)
    ∷ (70625, 70626)
    ∷ (70656, 70730)
    ∷ (70736, 70745)
    ∷ (70750, 70753)
    ∷ (70784, 70853)
    ∷ (70855, 70855)
    ∷ (70864, 70873)
    ∷ (71040, 71093)
    ∷ (71096, 71104)
    ∷ (71128, 71133)
    ∷ (71168, 71232)
    ∷ (71236, 71236)
    ∷ (71248, 71257)
    ∷ (71296, 71352)
    ∷ (71360, 71369)
    ∷ (71376, 71395)
    ∷ (71424, 71450)
    ∷ (71453, 71467)
    ∷ (71472, 71481)
    ∷ (71488, 71494)
    ∷ (71680, 71738)
    ∷ (71840, 71913)
    ∷ (71935, 71942)
    ∷ (71945, 71945)
    ∷ (71948, 71955)
    ∷ (71957, 71958)
    ∷ (71960, 71989)
    ∷ (71991, 71992)
    ∷ (71995, 72003)
    ∷ (72016, 72025)
    ∷ (72096, 72103)
    ∷ (72106, 72151)
    ∷ (72154, 72161)
    ∷ (72163, 72164)
    ∷ (72192, 72254)
    ∷ (72263, 72263)
    ∷ (72272, 72345)
    ∷ (72349, 72349)
    ∷ (72368, 72440)
    ∷ (72640, 72672)
    ∷ (72688, 72697)
    ∷ (72704, 72712)
    ∷ (72714, 72758)
    ∷ (72760, 72768)
    ∷ (72784, 72793)
    ∷ (72818, 72847)
    ∷ (72850, 72871)
    ∷ []

abbrev ranges_d : List CodePointRange
ranges_d =
    (72873, 72886)
    ∷ (72960, 72966)
    ∷ (72968, 72969)
    ∷ (72971, 73014)
    ∷ (73018, 73018)
    ∷ (73020, 73021)
    ∷ (73023, 73031)
    ∷ (73040, 73049)
    ∷ (73056, 73061)
    ∷ (73063, 73064)
    ∷ (73066, 73102)
    ∷ (73104, 73105)
    ∷ (73107, 73112)
    ∷ (73120, 73129)
    ∷ (73440, 73462)
    ∷ (73472, 73488)
    ∷ (73490, 73530)
    ∷ (73534, 73538)
    ∷ (73552, 73562)
    ∷ (73648, 73648)
    ∷ (73728, 74649)
    ∷ (74880, 75075)
    ∷ (77712, 77808)
    ∷ (77824, 78895)
    ∷ (78912, 78933)
    ∷ (78944, 82938)
    ∷ (82944, 83526)
    ∷ (90368, 90425)
    ∷ (92160, 92728)
    ∷ (92736, 92766)
    ∷ (92768, 92777)
    ∷ (92784, 92862)
    ∷ (92864, 92873)
    ∷ (92880, 92909)
    ∷ (92912, 92916)
    ∷ (92928, 92982)
    ∷ (92992, 92995)
    ∷ (93008, 93017)
    ∷ (93027, 93047)
    ∷ (93053, 93071)
    ∷ (93504, 93548)
    ∷ (93552, 93561)
    ∷ (93760, 93823)
    ∷ (93952, 94026)
    ∷ (94031, 94087)
    ∷ (94095, 94111)
    ∷ (94176, 94177)
    ∷ (94179, 94180)
    ∷ (94192, 94193)
    ∷ (94208, 100343)
    ∷ (100352, 101589)
    ∷ (101631, 101640)
    ∷ (110576, 110579)
    ∷ (110581, 110587)
    ∷ (110589, 110590)
    ∷ (110592, 110882)
    ∷ (110898, 110898)
    ∷ (110928, 110930)
    ∷ (110933, 110933)
    ∷ (110948, 110951)
    ∷ (110960, 111355)
    ∷ (113664, 113770)
    ∷ (113776, 113788)
    ∷ (113792, 113800)
    ∷ (113808, 113817)
    ∷ (113821, 113822)
    ∷ (118000, 118009)
    ∷ (118528, 118573)
    ∷ (118576, 118598)
    ∷ (119141, 119145)
    ∷ (119149, 119154)
    ∷ (119163, 119170)
    ∷ (119173, 119179)
    ∷ (119210, 119213)
    ∷ (119362, 119364)
    ∷ (119808, 119892)
    ∷ (119894, 119964)
    ∷ (119966, 119967)
    ∷ (119970, 119970)
    ∷ (119973, 119974)
    ∷ (119977, 119980)
    ∷ (119982, 119993)
    ∷ (119995, 119995)
    ∷ (119997, 120003)
    ∷ (120005, 120069)
    ∷ (120071, 120074)
    ∷ (120077, 120084)
    ∷ (120086, 120092)
    ∷ (120094, 120121)
    ∷ (120123, 120126)
    ∷ (120128, 120132)
    ∷ (120134, 120134)
    ∷ (120138, 120144)
    ∷ (120146, 120485)
    ∷ (120488, 120512)
    ∷ (120514, 120538)
    ∷ (120540, 120570)
    ∷ (120572, 120596)
    ∷ (120598, 120628)
    ∷ (120630, 120654)
    ∷ (120656, 120686)
    ∷ (120688, 120712)
    ∷ (120714, 120744)
    ∷ (120746, 120770)
    ∷ (120772, 120779)
    ∷ (120782, 120831)
    ∷ (121344, 121398)
    ∷ (121403, 121452)
    ∷ (121461, 121461)
    ∷ (121476, 121476)
    ∷ (121499, 121503)
    ∷ (121505, 121519)
    ∷ (122624, 122654)
    ∷ (122661, 122666)
    ∷ (122880, 122886)
    ∷ (122888, 122904)
    ∷ (122907, 122913)
    ∷ (122915, 122916)
    ∷ (122918, 122922)
    ∷ (122928, 122989)
    ∷ (123023, 123023)
    ∷ (123136, 123180)
    ∷ (123184, 123197)
    ∷ (123200, 123209)
    ∷ (123214, 123214)
    ∷ (123536, 123566)
    ∷ (123584, 123641)
    ∷ (124112, 124153)
    ∷ (124368, 124410)
    ∷ (124896, 124902)
    ∷ (124904, 124907)
    ∷ (124909, 124910)
    ∷ (124912, 124926)
    ∷ (124928, 125124)
    ∷ (125136, 125142)
    ∷ (125184, 125259)
    ∷ (125264, 125273)
    ∷ (126464, 126467)
    ∷ (126469, 126495)
    ∷ (126497, 126498)
    ∷ (126500, 126500)
    ∷ (126503, 126503)
    ∷ (126505, 126514)
    ∷ (126516, 126519)
    ∷ (126521, 126521)
    ∷ (126523, 126523)
    ∷ (126530, 126530)
    ∷ (126535, 126535)
    ∷ (126537, 126537)
    ∷ (126539, 126539)
    ∷ (126541, 126543)
    ∷ (126545, 126546)
    ∷ (126548, 126548)
    ∷ (126551, 126551)
    ∷ (126553, 126553)
    ∷ (126555, 126555)
    ∷ (126557, 126557)
    ∷ (126559, 126559)
    ∷ (126561, 126562)
    ∷ (126564, 126564)
    ∷ (126567, 126570)
    ∷ (126572, 126578)
    ∷ (126580, 126583)
    ∷ (126585, 126588)
    ∷ (126590, 126590)
    ∷ (126592, 126601)
    ∷ (126603, 126619)
    ∷ (126625, 126627)
    ∷ (126629, 126633)
    ∷ (126635, 126651)
    ∷ (130032, 130041)
    ∷ (131072, 173791)
    ∷ (173824, 177977)
    ∷ (177984, 178205)
    ∷ (178208, 183969)
    ∷ (183984, 191456)
    ∷ (191472, 192093)
    ∷ (194560, 195101)
    ∷ (196608, 201546)
    ∷ (201552, 205743)
    ∷ (917760, 917999)
    ∷ []

unfoldable pub symbol_letter_ranges : List CodePointRange
symbol_letter_ranges = ranges_a ++ ranges_b ++ ranges_c ++ ranges_d

-- One turn of the loop, with the range at `mid`: the answer, or the next bounds; `none` is a read
-- outside the array.
abbrev pub probe : ℕ → ℕ → ℕ → ℕ → Option CodePointRange → Option (Bool ⊎ (ℕ × ℕ))
probe cp lo mid hi none = none
probe cp lo mid hi (some (first, last)) =
    some
      (if ltb last cp then inr (mid + 1, hi) else if ltb cp first then inr (lo, mid) else inl true)

-- `while (lo < hi)`; `none` when the fuel has run out.
unfoldable pub search : ℕ → List CodePointRange → ℕ → ℕ → ℕ → Option Bool
search zero table cp lo hi = none
search (suc f) table cp lo hi =
    let mid = lo + (hi - lo) / 2 in
    elim (ltb lo hi) [
      | false ↦ some false
      | true ↦ elim (probe cp lo mid hi (get_elem? table mid)) [
        | none ↦ none
        | some (inl b) ↦ some b
        | some (inr (lo', hi')) ↦ search f table cp lo' hi'
      ]
    ]

abbrev pub or_false : Option Bool → Bool
or_false none = false
or_false (some b) = b

-- Eleven turns: ten probes, and the test that ends the loop.
unfoldable pub is_symbol_letter : ℕ → Bool
unfolding search symbol_letter_ranges
is_symbol_letter cp = or_false (search 11 symbol_letter_ranges cp 0 (length symbol_letter_ranges))
